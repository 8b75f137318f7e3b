-- ===== src/Send/Intents/RoundTrip.antt =====
-- The links of ReceiveModal.tsx in the form of SendForm.tsx.
use reference_wallet.Base.{
  ℕ, ◌≡◌, ◌≢◌, refl, ap, Option, none, some, List, [], ◌∷◌, ◌++◌, arith, All,
}
use reference_wallet.Send.Intents.{
  split_on, push, strip_prefix, apply_intent, apply_intents, parse_parts, parse_address_intents,
  receiving_link, AddressWithIntents, text_eq,
}

-- A text without a character.
abbrev pub Free : ℕ → List ℕ → Type 0
Free sep text = All (λ c. c ≢ sep) text

-- A text that has no part to split at the separators of a link, and nothing to decode.
pub record IsPlain (text : List ℕ) : Type 0 where
  pub no_question : Free b'?' text
  pub no_ampersand : Free b'&' text
  pub no_equals : Free b'=' text
  pub no_percent : Free b'%' text

pub split_on-append :
    (sep : ℕ) (a b : List ℕ) → Free sep a → split_on sep (a ++ sep ∷ b) ≡ a ∷ split_on sep b
unfolding split_on
split_on-append sep [] b h = ground arith
split_on-append sep (c ∷ cs) b (h, hs) =
    ground (arith, h, ap (push c) (split_on-append sep cs b hs))

pub split_on-Free : (sep : ℕ) (a : List ℕ) → Free sep a → split_on sep a ≡ a ∷ []
unfolding split_on
split_on-Free sep [] h = refl
split_on-Free sep (c ∷ cs) (h, hs) = ground (arith, h, ap (push c) (split_on-Free sep cs hs))

module _ (decode_uri_component : List ℕ → Option (List ℕ))
    (decode_plain : (text : List ℕ) → Free b'%' text → decode_uri_component text ≡ some text) where
  apply_currency :
      (currency : List ℕ) (a : AddressWithIntents)
      → IsPlain currency
      → apply_intent decode_uri_component (b'c' ∷ b'=' ∷ currency) a
        ≡ some (record a { currency = some currency })
  unfolding apply_intent split_on text_eq
  apply_currency currency a h =
      let no_equals = split_on-Free b'=' currency h.no_equals in
      let plain = decode_plain currency h.no_percent in rw (no_equals, plain) refl

  -- The link that the receiver's dialog shows for an address and a currency, pasted into the form of
  -- the sender, gives that address and that currency and no amount, when neither text has a
  -- separator of the link and `decodeURIComponent` leaves a text without a percent sign alone.
  pub receiving_link_round_trip :
      (recv_address currency : List ℕ)
      → Free b'?' recv_address
      → IsPlain currency
      → parse_address_intents decode_uri_component (receiving_link recv_address currency)
        ≡ some (record { address = recv_address; currency = some currency; amount = none })
  unfolding parse_address_intents receiving_link strip_prefix parse_parts apply_intents
  receiving_link_round_trip recv_address currency h p =
      let query = b'c' ∷ b'=' ∷ currency in
      let parts = split_on-append b'?' recv_address query h in
      let one_part = split_on-Free b'?' query (ground arith, (ground arith, p.no_question)) in
      let one_intent = split_on-Free b'&' query (ground arith, (ground arith, p.no_ampersand)) in
      let applied =
        apply_currency currency (record { address = recv_address; currency = none; amount = none })
          p in
      rw (parts, one_part, one_intent, applied) refl
