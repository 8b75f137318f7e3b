-- ===== src/Mobile/Receive/Shared.antt =====
-- The links that the mobile screen shows for sharing.
use reference_wallet.Base.{
  ℕ, ◌≡◌, ◌∙◌, refl, ap, String, Bool, true, false, Option, none, some, List, [], ◌∷◌, ◌++◌, codes,
}
use reference_wallet.Send.Intents.{addr_protocol_prefix, receiving_link, parse_address_intents}
use reference_wallet.Send.Intents.RoundTrip.{Free, IsPlain, receiving_link_round_trip}
use reference_wallet.Transfer.Machine.{Outcome, ok, backend_error, other_error}
use reference_wallet.Mobile.Receive.{
  Receive, mount, intent_of, address_with_intents, finish_fetch, Event, select, settled, step, run,
}

-- With an address and a currency selected, the link is the one that the web dialog makes.
address_with_intents-link :
    (s : Receive) (a : List ℕ) (c : ℕ) (cs : List ℕ)
    → s.receiving_address ≡ some a
    → s.selected_currency ≡ some (c ∷ cs)
    → address_with_intents s ≡ receiving_link a (c ∷ cs)
unfolding address_with_intents receiving_link
address_with_intents-link s a c cs address selected = rw (address, selected) refl

-- Once the only call has ended, its result stays.
record IsSettled (address : Option (List ℕ)) (s : Receive) : Type 0 where
  idle : s.is_waiting ≡ false
  kept : s.receiving_address ≡ address

finish-settled :
    (b : Bool) (o : Outcome (List ℕ)) (s : Receive) → b ≡ false → finish_fetch b o s ≡ s
unfolding finish_fetch
finish-settled true o s h = absurd (cc)
finish-settled false o s h = refl

run-IsSettled :
    (address : Option (List ℕ)) (s : Receive) (es : List Event)
    → IsSettled address s
    → IsSettled address (run s es)
unfolding run
run-IsSettled address s [] h = h
run-IsSettled address s (select c ∷ es) h =
    run-IsSettled address (step s (select c)) es (record { idle = h.idle; kept = h.kept })
run-IsSettled address s (settled o ∷ es) h =
    run-IsSettled address (step s (settled o)) es (rw (finish-settled s.is_waiting o s h.idle) h)

-- The currency that is selected after some events.
abbrev pub last_selected : Option (List ℕ) → List Event → Option (List ℕ)
last_selected c [] = c
last_selected c (select d ∷ es) = last_selected d es
last_selected c (settled o ∷ es) = last_selected c es

finish-selected :
    (b : Bool) (o : Outcome (List ℕ)) (s : Receive)
    → (finish_fetch b o s).selected_currency ≡ s.selected_currency
unfolding finish_fetch
finish-selected true (ok a) s = refl
finish-selected true (backend_error e) s = refl
finish-selected true other_error s = refl
finish-selected false o s = refl

run-selected :
    (s : Receive) (es : List Event)
    → (run s es).selected_currency ≡ last_selected s.selected_currency es
unfolding run
run-selected s [] = refl
run-selected s (select c ∷ es) = run-selected (step s (select c)) es
run-selected s (settled o ∷ es) =
    run-selected (step s (settled o)) es
    ∙ ap (λ (c : Option (List ℕ)). last_selected c es) (finish-selected s.is_waiting o s)

module _ (decode_uri_component : List ℕ → Option (List ℕ))
    (decode_plain : (text : List ℕ) → Free b'%' text → decode_uri_component text ≡ some text) where
  -- After the address has come, whatever else happens, the link on the screen read by the form of the
  -- sender gives that address and the currency that is selected, and no amount, when one is selected and
  -- neither text has a separator of the link, and `decodeURIComponent` leaves a text without a percent
  -- sign alone.
  pub shared_link_round_trip :
      (currency : Option (List ℕ)) (a : List ℕ) (c : ℕ) (cs : List ℕ) (es : List Event)
      → last_selected currency es ≡ some (c ∷ cs)
      → Free b'?' a
      → IsPlain (c ∷ cs)
      → parse_address_intents decode_uri_component
          (address_with_intents (run (mount currency) (settled (ok a) ∷ es)))
        ≡ some (record { address = a; currency = some (c ∷ cs); amount = none })
  unfolding run mount
  shared_link_round_trip currency a c cs es selected free plain =
      let s = step (mount currency) (settled (ok a)) in
      let h = run-IsSettled (some a) s es (record { idle = refl; kept = refl }) in
      ap (parse_address_intents decode_uri_component)
        (address_with_intents-link (run s es) a c cs h.kept (run-selected s es ∙ selected))
      ∙ receiving_link_round_trip decode_uri_component decode_plain a (c ∷ cs) free plain

-- When the call that creates the address fails, then whatever else happens no address ever comes, and the
-- link on the screen names the address "undefined", with the currency that is selected.
failed_address-shares_undefined :
    (currency : Option (List ℕ)) (e : String) (es : List Event)
    → let s = run (mount currency) (settled (backend_error e) ∷ es) in
      (s.receiving_address ≡ none)
      × (address_with_intents s
          ≡ addr_protocol_prefix ++ codes "undefined" ++ intent_of (last_selected currency es))
unfolding run mount address_with_intents
failed_address-shares_undefined currency e es =
    let s = step (mount currency) (settled (backend_error e)) in
    let h = run-IsSettled none s es (record { idle = refl; kept = refl }) in
    (h.kept, rw (h.kept, run-selected s es) refl)
