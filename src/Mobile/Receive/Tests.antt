-- ===== src/Mobile/Receive/Tests.antt =====
-- Runs of mobile/src/screens/Receive.tsx.
use reference_wallet.Base.{ℕ, ◌≤◌, ◌≡◌, refl, Option, none, some, List, [], ◌∷◌, arith, codes}
use reference_wallet.Send.Intents.{parse_address_intents}
use reference_wallet.Send.Intents.RoundTrip.{Free, IsPlain}
use reference_wallet.Transfer.Machine.{ok}
use reference_wallet.Mobile.Receive.{mount, address_with_intents, select, settled, run}
use reference_wallet.Mobile.Receive.Shared.{shared_link_round_trip}

-- A decoder for texts without a percent sign.
abbrev plain_decode : List ℕ → Option (List ℕ)
plain_decode text = some text

undefined_link : address_with_intents (mount none) ≡ codes "diem://undefined"
unfolding mount address_with_intents
undefined_link = refl

xus-Free : (sep : ℕ) → sep ≤ 64 → Free sep (codes "XUS")
xus-Free sep h = (λ e. omega (arith, e), (λ e. omega (arith, e), (λ e. omega (arith, e), tt)))

xus-IsPlain : IsPlain (codes "XUS")
xus-IsPlain = record {
  no_question = xus-Free b'?' (omega arith);
  no_ampersand = xus-Free b'&' (omega arith);
  no_equals = xus-Free b'=' (omega arith);
  no_percent = xus-Free b'%' (omega arith);
}

address-Free : Free b'?' (codes "t1")
address-Free = (λ e. omega (arith, e), (λ e. omega (arith, e), tt))

shared_link_round_trip_example :
    parse_address_intents plain_decode (
      address_with_intents
        (run (mount none) (settled (ok (codes "t1")) ∷ select (some (codes "XUS")) ∷ [])))
    ≡ some (record { address = codes "t1"; currency = some (codes "XUS"); amount = none })
shared_link_round_trip_example =
    shared_link_round_trip plain_decode (λ text h. refl) none (codes "t1") b'X' (codes "US")
      (select (some (codes "XUS")) ∷ []) refl address-Free xus-IsPlain
