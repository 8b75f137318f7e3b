-- ===== src/Transfer/Tests.antt =====
-- Runs of the dialogs of frontend/src/components/Transfer, and the theorems at concrete runs.
use reference_wallet.Base.{◌≡◌, ◌≤◌, refl, true, none, some, [], ◌∷◌, length, All}
use reference_wallet.Amount.{whole}
use reference_wallet.Backend.Http.{number, string, null}
use reference_wallet.Backend.Account.{Quote}
use reference_wallet.Transfer.Machine.{
  Phase, Machine, ok, other_error, run, step, view, submit, back, confirm, quote_settled,
  execution_settled,
}
use reference_wallet.Transfer.Machine.Invariant.{IsAnswered, started}
use reference_wallet.Transfer.Machine.Reach.{
  Reach, mounted, next, Reach-IsAnswered, Reach-executed_once,
}
use reference_wallet.Transfer.Machine.Failure.{failed_execution_sticks}
use reference_wallet.Transfer.Machine.Progress.{Reach-has_live, has_live, completes}
use reference_wallet.Transfer.Withdraw.{WithdrawData, withdraw_reducer}
use reference_wallet.Transfer.Withdraw

abbrev offer : Quote
offer = record {
  quote_id = string "q1";
  rfq = null;
  price = number (whole 5);
  expiration_time = null;
}

abbrev wish : WithdrawData
wish = record {
  funding_source = some 1;
  fiat_currency = "EUR";
  currency = some "XUS";
  amount = some (whole 3);
}

-- A backend that prices every request at 5.
abbrev AtFive : WithdrawData → Quote → Type 0
AtFive d q = q.price ≡ number (whole 5)

abbrev start : Machine WithdrawData Quote
start = Withdraw.mount none "USD" true

abbrev asked : Machine WithdrawData Quote
asked = step withdraw_reducer start (submit wish)

abbrev quoted : Machine WithdrawData Quote
quoted = step withdraw_reducer asked (quote_settled 0 (ok offer))

abbrev executing : Machine WithdrawData Quote
executing = step withdraw_reducer quoted confirm

start-Reach : Reach AtFive withdraw_reducer start
unfolding Withdraw.mount
start-Reach =
    mounted
      (record { collecting = refl; no_requests = refl; no_executions = refl; none_executed = refl })

asked-Reach : Reach AtFive withdraw_reducer asked
asked-Reach = next (submit wish) start-Reach tt

quoted-Reach : Reach AtFive withdraw_reducer quoted
quoted-Reach = next (quote_settled 0 (ok offer)) asked-Reach (λ sent found. refl)

executing-Reach : Reach AtFive withdraw_reducer executing
executing-Reach = next confirm quoted-Reach tt

Reach-IsAnswered_example : IsAnswered AtFive quoted.state
unfolding step withdraw_reducer Withdraw.mount
Reach-IsAnswered_example = Reach-IsAnswered AtFive withdraw_reducer quoted-Reach refl

Reach-executed_once_example :
    (length executing.executed ≡ started executing.state.phase)
    × (length executing.executed ≤ 1)
    × All (λ (x : Quote × WithdrawData). AtFive x.1 x.0) executing.executed
Reach-executed_once_example = Reach-executed_once AtFive withdraw_reducer executing-Reach

failed_execution_sticks_example :
    let m' =
      run withdraw_reducer
        (step withdraw_reducer executing (execution_settled 0 other_error))
        (confirm ∷ back ∷ submit wish ∷ []) in
    (m'.state.phase ≡ Phase.executing) × (m'.executed ≡ executing.executed)
unfolding step withdraw_reducer Withdraw.mount
failed_execution_sticks_example =
    failed_execution_sticks AtFive withdraw_reducer 0 other_error (offer, wish)
      (confirm ∷ back ∷ submit wish ∷ []) executing-Reach refl tt

Reach-has_live_example : has_live asked.requests ≡ true
unfolding step withdraw_reducer Withdraw.mount
Reach-has_live_example = Reach-has_live AtFive withdraw_reducer asked-Reach refl

completes_example :
    let m' =
      run withdraw_reducer start
        (submit wish ∷ quote_settled 0 (ok offer) ∷ confirm ∷ execution_settled 0 (ok tt) ∷ []) in
    (m'.state.phase ≡ Phase.done) × (m'.executed ≡ (offer, wish) ∷ []) × (m'.executions ≡ [])
unfolding view Withdraw.mount
completes_example = completes AtFive withdraw_reducer wish offer start-Reach refl
