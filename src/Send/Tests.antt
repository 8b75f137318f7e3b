-- ===== src/Send/Tests.antt =====
-- Runs of frontend/src/components/Send, and the theorems at concrete inputs.
use reference_wallet.Base.{
  codes, ℕ, ◌≤◌, ◌≡◌, ◌≢◌, ◌↔◌, refl, true, Option, none, some, List, [], ◌∷◌, arith, All, length,
}
use reference_wallet.Transfer.Machine.{ok, Outcome, other_error}
use reference_wallet.Send.Intents.{parse_address_intents, receiving_link}
use reference_wallet.Send.Intents.RoundTrip.{Free, IsPlain, receiving_link_round_trip}
use reference_wallet.Send.Form.{SendData, CurrencyBalance, accepts}
use reference_wallet.Send.Modal.{Status, Pending, World, Event, transaction_of, step, mount}
use reference_wallet.Send.Modal.Runs.{Reach}
use reference_wallet.Send.Modal.Payable.{IsPayable, Reach-IsPayable}
use reference_wallet.Send.Modal.Flight.{Open, own, single_flight, failed_refresh_resends}

-- A decoder for texts without a percent sign.
abbrev plain_decode : List ℕ → Option (List ℕ)
plain_decode text = some text

amount_test :
    parse_address_intents plain_decode (codes "diem://tdm1x?c=XUS&am=1500000")
    ≡ some (record {
      address = codes "tdm1x";
      currency = some (codes "XUS");
      amount = some (some (record { num = 1500000; den = 1000000 }));
    })
unfolding parse_address_intents
amount_test = refl

bare_test :
    parse_address_intents plain_decode (codes "tdm1x")
    ≡ some (record { address = codes "tdm1x"; currency = none; amount = none })
unfolding parse_address_intents
bare_test = refl

address-Free : Free b'?' (codes "tdm1x")
address-Free = (
  λ e. omega (arith, e),
  (
    λ e. omega (arith, e),
    (λ e. omega (arith, e), (λ e. omega (arith, e), (λ e. omega (arith, e), tt))),
  ),
)

xus-Free : (sep : ℕ) → sep ≤ 64 → Free sep (codes "XUS")
xus-Free sep h = (λ e. omega (arith, e), (λ e. omega (arith, e), (λ e. omega (arith, e), tt)))

xus-IsPlain : IsPlain (codes "XUS")
xus-IsPlain = record {
  no_question = xus-Free b'?' (omega arith);
  no_ampersand = xus-Free b'&' (omega arith);
  no_equals = xus-Free b'=' (omega arith);
  no_percent = xus-Free b'%' (omega arith);
}

receiving_link_round_trip_example :
    parse_address_intents plain_decode (receiving_link (codes "tdm1x") (codes "XUS"))
    ≡ some (record { address = codes "tdm1x"; currency = some (codes "XUS"); amount = none })
receiving_link_round_trip_example =
    receiving_link_round_trip plain_decode (λ text h. refl) (codes "tdm1x") (codes "XUS")
      address-Free xus-IsPlain

abbrev balances : List CurrencyBalance
balances = record { currency = codes "XUS"; balance = 2000000 } ∷ []

abbrev usd : List ℕ
usd = codes "USD"

abbrev order : SendData
order = record {
  currency = some (codes "XUS");
  fiat_currency = usd;
  amount = some (record { num = 3; den = 2 });
  address = some (codes "tdm1pzmhcxpnyns7m035ctdqmexxad8ptgazxhllvyscesqdgp");
}

order_test : accepts balances order ≡ true
unfolding accepts
order_test = refl

abbrev mounted : World
mounted = mount balances none usd

abbrev sending : World
sending = step balances none usd (step balances none usd mounted (Event.submit order)) Event.confirm

asked_test : length sending.asked ≡ 1
unfolding step mount
asked_test = refl

sending-Reach : Reach balances none usd sending
sending-Reach = Reach.next Event.confirm (Reach.next (Event.submit order) Reach.mounted)

Reach-IsPayable_example : All (IsPayable balances) sending.asked
Reach-IsPayable_example = Reach-IsPayable balances none usd sending sending-Reach

sending-Open : Open balances none usd sending
sending-Open = Open.next Event.confirm refl (Open.next (Event.submit order) refl Open.mounted)

single_flight_example :
    (length (own sending.in_flight) ≤ 1)
    × ((sending.dialog.submit_status ≡ Status.sending)
        ↔ (own sending.in_flight ≡ Pending.creating ∷ []))
single_flight_example = single_flight balances none usd sending-Open

sending-reviewing : sending.dialog.reviewing ≡ true
unfolding step mount
sending-reviewing = refl

sending-in_flight : sending.in_flight ≡ Pending.creating ∷ Pending.opening ∷ []
unfolding step mount
sending-in_flight = refl

other-not_ok : ◌≢◌ {A = Outcome (Unit {0})} other_error (ok tt)
other-not_ok e = cc

abbrev failed : World
failed =
    step balances none usd (step balances none usd sending (Event.create_settled 0 (ok 17)))
      (Event.refresh_settled 0 other_error)

failed_refresh_resends_example :
    (failed.dialog.submit_status ≡ Status.fail)
    × (failed.dialog.sent_transaction_id ≡ some 17)
    × ((step balances none usd failed Event.confirm).asked
        ≡ transaction_of sending.dialog.data_sent ∷ sending.asked)
failed_refresh_resends_example =
    failed_refresh_resends balances none usd sending (Pending.opening ∷ []) 17 other_error
      sending-reviewing sending-in_flight other-not_ok
