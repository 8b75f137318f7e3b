-- ===== src/Mobile/Send/Tests.antt =====
-- Runs of the mobile send screens, and the theorems at concrete runs.
use reference_wallet.Base.{
  codes, ℕ, ◌≡◌, ◌≤◌, ◌+◌, refl, true, Option, none, some, List, [], ◌∷◌, length, All,
}
use reference_wallet.Amount.Text.{Fraction}
use reference_wallet.Send.Intents.{AddressWithIntents}
use reference_wallet.Send.Form.{CurrencyBalance}
use reference_wallet.Transfer.Machine.{ok}
use reference_wallet.Mobile.Review.{Press, Stack, press, settled}
use reference_wallet.Mobile.Send.{
  SendData, submit, reviewed, step, mount, Reach, mounted, next, accepts, parse_diem_address,
  transaction_of,
}
use reference_wallet.Mobile.Send.Once.{IsPayable, sends_once}

-- No "%" is decoded.
abbrev decode : List ℕ → Option (List ℕ)
decode t = some t

abbrev two : Fraction
two = record { num = 2000000; den = 1000000 }

abbrev linked : AddressWithIntents
linked = record { address = codes "tdm1x"; currency = none; amount = some (some two) }

linked_parsed : parse_diem_address decode (codes "diem://tdm1x?am=2000000") ≡ some linked
unfolding parse_diem_address
linked_parsed = refl

abbrev balances : List CurrencyBalance
balances = record { currency = codes "XUS"; balance = 5000000 } ∷ []

abbrev wish : SendData
wish = record {
  diem_currency = some (codes "XUS");
  fiat_currency = some (codes "EUR");
  diem_amount = some (codes "3");
  diem_address = some (codes "aaaaaaaaaabbbbbbbbbbccccccccccddddddddddeeeeeeeeee");
}

wish_accepted : accepts balances wish ≡ true
unfolding accepts
wish_accepted = refl

-- An amount that was erased is accepted, and 0 is sent.
erased_accepted : accepts balances (record wish { diem_amount = some [] }) ≡ true
unfolding accepts
erased_accepted = refl

erased_amount : (transaction_of (record wish { diem_amount = some [] })).amount ≡ some 0
unfolding transaction_of
erased_amount = refl

abbrev sent : Stack SendData
sent =
    step balances
      (step balances (step balances mount (submit wish)) (reviewed (press Press.confirm)))
      (reviewed (settled 0 (ok tt)))

sent_asked : length sent.asked ≡ 1
unfolding step mount accepts
sent_asked = refl

sent-Reach : Reach balances sent
sent-Reach =
    next (reviewed (settled 0 (ok tt)))
      (next (reviewed (press Press.confirm)) (next (submit wish) mounted))

sends_once_example :
    All (IsPayable balances) sent.asked × (length sent.asked ≤ sent.pushed + sent.failed)
sends_once_example = sends_once balances sent-Reach
