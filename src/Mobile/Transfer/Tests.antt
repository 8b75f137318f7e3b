-- ===== src/Mobile/Transfer/Tests.antt =====
-- Runs of the mobile transfer screens, and the theorems at concrete runs.
use reference_wallet.Base.{
  ◌≡◌, ◌≤◌, refl, suc, none, true, false, not, some, List, [], ◌∷◌, length, All,
}
use reference_wallet.Amount.{whole}
use reference_wallet.Options.{CurrencyBalance}
use reference_wallet.Backend.Http.{number, string, null}
use reference_wallet.Backend.Account.{Quote}
use reference_wallet.Transfer.Machine.{ok, other_error}
use reference_wallet.Transfer.Rules.{find_balance}
use reference_wallet.Mobile.Review.{SubmitStatus, Press, press, settled}
use reference_wallet.Mobile.Transfer.{Screens, Event, submit, quote_settled, reviewed, step, mount}
use reference_wallet.Mobile.Transfer.Withdraw.{WithdrawData, accepts}
use reference_wallet.Mobile.Transfer.Once
use reference_wallet.Mobile.Transfer.Once.{PatientReach, transferred_once}
use reference_wallet.Mobile.Transfer.Again.{resent_while_sending}
use reference_wallet.Mobile.Transfer.Answered
use reference_wallet.Mobile.Transfer.Answered.{HonestReach, IsAnswered, executed-IsAnswered}
use reference_wallet.Mobile.Transfer.Amounts.{chosen}

abbrev balances : List CurrencyBalance
balances = record { currency = "XUS"; balance = 5000000 } ∷ []

xus_balance : find_balance balances "XUS" ≡ some 5000000
unfolding find_balance
xus_balance = refl

abbrev wish : WithdrawData
wish = chosen 1 "EUR" "XUS" (b'3' ∷ [])

abbrev offer : Quote
offer = record {
  quote_id = string "q1";
  rfq = null;
  price = number (whole 5);
  expiration_time = null;
}

wish_accepted : accepts balances wish ≡ true
unfolding accepts
wish_accepted = refl

too_much : accepts balances (chosen 1 "EUR" "XUS" (b'6' ∷ [])) ≡ false
unfolding accepts
too_much = refl

abbrev start : Screens WithdrawData Quote
start = mount

abbrev go : Screens WithdrawData Quote → Event WithdrawData Quote → Screens WithdrawData Quote
go = step (accepts balances) not

-- A quote is given, and its execution fails once.
abbrev finished : Screens WithdrawData Quote
finished =
    go
      (go
        (go
          (go (go (go start (submit wish)) (quote_settled 0 (ok offer)))
            (reviewed (press Press.confirm)))
          (reviewed (settled 0 other_error)))
        (reviewed (press Press.confirm)))
      (reviewed (settled 0 (ok tt)))

finished_asked : (length finished.stack.asked ≡ 2) × (finished.stack.failed ≡ 1)
unfolding step mount accepts
finished_asked = (refl, refl)

finished-PatientReach : PatientReach (accepts balances) not refl finished
finished-PatientReach = Once.next (reviewed (settled 0 (ok tt))) tt (
    Once.next (reviewed (press Press.confirm)) tt (
      Once.next (reviewed (settled 0 other_error)) tt (
        Once.next (reviewed (press Press.confirm)) tt
          (Once.next (quote_settled 0 (ok offer)) tt (Once.next (submit wish) tt Once.mounted)))))

transferred_once_example :
    (length finished.requests ≤ 1) × (length finished.stack.asked ≤ suc finished.stack.failed)
transferred_once_example = transferred_once (accepts balances) not refl finished-PatientReach

-- A backend that prices every request at 5.
abbrev AtFive : WithdrawData → Quote → Type 0
AtFive d q = q.price ≡ number (whole 5)

abbrev confirmed : Screens WithdrawData Quote
confirmed =
    go (go (go start (submit wish)) (quote_settled 0 (ok offer))) (reviewed (press Press.confirm))

confirmed-Reach : HonestReach (accepts balances) not AtFive confirmed
confirmed-Reach =
    Answered.next (reviewed (press Press.confirm))
      (Answered.next (quote_settled 0 (ok offer)) (Answered.next (submit wish) Answered.mounted tt)
        (λ d found. refl))
      tt

executed-IsAnswered_example : All (IsAnswered (accepts balances) not AtFive) confirmed.stack.asked
executed-IsAnswered_example = executed-IsAnswered (accepts balances) not AtFive confirmed-Reach

resent_while_sending_example :
    let form = go confirmed (reviewed (press Press.header_back)) in
    let review = go (go form (submit wish)) (quote_settled 0 (ok offer)) in
    let t = go review (reviewed (press Press.confirm)) in
    (t.stack.abandoned ≡ (offer, wish) ∷ [])
    × (t.stack.reviews
        ≡ (record {
          props = (offer, wish);
          submit_status = SubmitStatus.sending;
          error_message = none;
        })
          ∷ [])
    × (t.stack.asked ≡ (offer, wish) ∷ (offer, wish) ∷ [])
unfolding step mount accepts
resent_while_sending_example =
    resent_while_sending (accepts balances) not confirmed
      (record { props = (offer, wish); submit_status = SubmitStatus.sending; error_message = none })
      wish offer refl refl refl refl refl refl
