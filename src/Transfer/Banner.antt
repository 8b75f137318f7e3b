-- ===== src/Transfer/Banner.antt =====
-- The error banner of the three dialogs after a submission that succeeds.
use text.Mathlib.TextEquality.{eq_iff}
use reference_wallet.Base.{◌≡◌, ◌≢◌, true, false, none, some, [], ◌∷◌, String, arith, List}
use reference_wallet.Backend.Account.{Quote}
use reference_wallet.Transfer.Machine.{
  Machine, Event, ok, View, run, step, view, accepts_submit, submit, quote_settled, confirm,
  execution_settled,
}
use reference_wallet.Transfer.Withdraw.{WithdrawData, withdraw_reducer}
use reference_wallet.Transfer.Deposit.{DepositData, deposit_reducer}
use reference_wallet.Transfer.Convert.{ConvertData, convert_reducer}

-- A submission, its quote, the confirmation and the execution.
abbrev pub success : {D : Type 0} → D → Quote → List (Event D Quote)
success d q = submit d ∷ quote_settled 0 (ok q) ∷ confirm ∷ execution_settled 0 (ok tt) ∷ []

-- In the deposit dialog, the message of an earlier failure stays on the screen through a submission
-- that succeeds, and stands there beside the message of success.
deposit_keeps_error :
    (m : Machine DepositData Quote) (d : DepositData) (q : Quote) (e : String)
    → accepts_submit (view m) ≡ true
    → m.state.error_message ≡ some e
    → e ≢ ""
    → view (run deposit_reducer m (success d q)) ≡ View.review (some e) true (some q) false true
unfolding run step view deposit_reducer
deposit_keeps_error m d q e on failed shown = rw (on, failed) (ground (arith, eq_iff e ""))

-- In the withdraw dialog, a submission takes the message of an earlier failure off the screen, so
-- that one that succeeds ends with the message of success alone.
withdraw_drops_error :
    (m : Machine WithdrawData Quote) (d : WithdrawData) (q : Quote)
    → accepts_submit (view m) ≡ true
    → view (run withdraw_reducer m (success d q)) ≡ View.review none true (some q) false true
unfolding run step view withdraw_reducer
withdraw_drops_error m d q on = rw on (ground arith)

-- The same holds of the convert dialog.
convert_drops_error :
    (m : Machine ConvertData Quote) (d : ConvertData) (q : Quote)
    → accepts_submit (view m) ≡ true
    → view (run convert_reducer m (success d q)) ≡ View.review none true (some q) false true
unfolding run step view convert_reducer
convert_drops_error m d q on = rw on (ground arith)
