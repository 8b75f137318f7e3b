-- ===== src/Send/Intents.antt =====
-- `parseAddressIntents` and `setAddressAndIntents` of frontend/src/components/Send/SendForm.tsx, and
-- the link that `fetchReceivingAddress` of ReceiveModal.tsx makes. `decodeURIComponent` is a
-- parameter, with `none` for a URIError; `parseInt` is on a text with no sign, space or "0x" in front.
pub mod RoundTrip
pub mod TextEq
use reference_wallet.Base.{
  ℕ, zero, suc, Bool, true, false, ◌&&◌, Option, none, some, List, [], ◌∷◌, ◌++◌, ◌==◌,
  if◌then◌else◌, get_elem?, ◌>>=◌,
}
use mathlib.Core.Option
use reference_wallet.Amount.{whole, diem_amount_to_float}
use reference_wallet.Amount.Text.{Fraction, take_digits}

abbrev pub addr_protocol_prefix : List ℕ
addr_protocol_prefix = b'd' ∷ b'i' ∷ b'e' ∷ b'm' ∷ b':' ∷ b'/' ∷ b'/' ∷ []

unfoldable pub text_eq : List ℕ → List ℕ → Bool
text_eq [] [] = true
text_eq (c ∷ cs) (d ∷ ds) = c == d && text_eq cs ds
text_eq _ _ = false

-- `address.substring(prefix.length)` if the address starts with the prefix, and the address if not.
unfoldable pub strip_prefix : List ℕ → List ℕ → Option (List ℕ)
strip_prefix [] text = some text
strip_prefix (c ∷ cs) [] = none
strip_prefix (c ∷ cs) (d ∷ ds) = let rest = strip_prefix cs ds in if c == d then rest else none

abbrev pub or_text : Option (List ℕ) → List ℕ → List ℕ
or_text none text = text
or_text (some stripped) text = stripped

abbrev pub push : ℕ → List (List ℕ) → List (List ℕ)
push c [] = (c ∷ []) ∷ []
push c (part ∷ parts) = (c ∷ part) ∷ parts

-- `String.prototype.split` at a separator of one character.
unfoldable pub split_on : ℕ → List ℕ → List (List ℕ)
split_on sep [] = [] ∷ []
split_on sep (c ∷ cs) = let parts = split_on sep cs in if c == sep then [] ∷ parts else push c parts

-- `parseInt`, with `none` for NaN.
unfoldable pub parse_int : List ℕ → Option ℕ
unfolding take_digits
parse_int text =
    let (value, count, rest) = take_digits 0 0 text in if count == 0 then none else some value

-- `amount` is `none` when no intent sets it, and `some none` when it is NaN.
pub record AddressWithIntents : Type 0 where
  pub address : List ℕ
  pub currency : Option (List ℕ)
  pub amount : Option (Option Fraction)

-- `decodeURIComponent(undefined)` is the text "undefined".
abbrev pub value_text : Option (List ℕ) → List ℕ
value_text none = b'u' ∷ b'n' ∷ b'd' ∷ b'e' ∷ b'f' ∷ b'i' ∷ b'n' ∷ b'e' ∷ b'd' ∷ []
value_text (some text) = text

abbrev pub key_is : List ℕ → Option (List ℕ) → Bool
key_is name none = false
key_is name (some key) = text_eq key name

-- The form's fields that a pasted address can set.
pub record Fields : Type 0 where
  pub address : List ℕ
  pub currency : Option (List ℕ)
  pub selected_currency : Option (List ℕ)
  pub amount : Option Fraction

module _ (decode_uri_component : List ℕ → Option (List ℕ)) where
  set_currency : Option (List ℕ) → AddressWithIntents → Option AddressWithIntents
  set_currency none a = none
  set_currency (some text) a = some (record a { currency = some text })

  set_amount : Option (List ℕ) → AddressWithIntents → Option AddressWithIntents
  unfolding parse_int diem_amount_to_float
  set_amount none a = none
  set_amount (some text) a = some (record a {
    amount = some (Option.map (λ n. diem_amount_to_float (whole n)) (parse_int text));
  })

  -- One turn of `intents.forEach`.
  unfoldable pub apply_intent : List ℕ → AddressWithIntents → Option AddressWithIntents
  unfolding split_on text_eq set_currency set_amount
  apply_intent intent a =
      let parts = split_on b'=' intent in
      let key = get_elem? parts 0 in
      let value = decode_uri_component (value_text (get_elem? parts 1)) in
      if key_is (b'c' ∷ []) key
      then set_currency value a
      else (if key_is (b'a' ∷ b'm' ∷ []) key then set_amount value a else some a)

  unfoldable pub apply_intents : List (List ℕ) → AddressWithIntents → Option AddressWithIntents
  unfolding apply_intent
  apply_intents [] a = some a
  apply_intents (intent ∷ intents) a = apply_intent intent a >>= apply_intents intents

  -- `parts` is the address split at "?"; there is always a first part.
  unfoldable pub parse_parts : List (List ℕ) → List ℕ → Option AddressWithIntents
  unfolding apply_intents split_on
  parse_parts (address ∷ query ∷ parts) _ =
      apply_intents (split_on b'&' query)
        (record { address = address; currency = none; amount = none })
  parse_parts _ address = some (record { address = address; currency = none; amount = none })

  unfoldable pub parse_address_intents : List ℕ → Option AddressWithIntents
  unfolding strip_prefix parse_parts split_on
  parse_address_intents address =
      let stripped = or_text (strip_prefix addr_protocol_prefix address) address in
      parse_parts (split_on b'?' stripped) stripped

-- An empty currency, and an amount that is 0 or NaN, is not set.
abbrev pub set_parsed_currency : Option (List ℕ) → Fields → Fields
set_parsed_currency (some (c ∷ cs)) f = record f {
  selected_currency = some (c ∷ cs);
  currency = some (c ∷ cs);
}
set_parsed_currency _ f = f

abbrev pub set_parsed_amount : Option (Option Fraction) → Fields → Fields
set_parsed_amount (some (some x)) f = if x.num == 0 then f else record f { amount = some x }
set_parsed_amount _ f = f

-- A `URIError` leaves the form as it is.
unfoldable pub set_address_and_intents : Option AddressWithIntents → Fields → Fields
set_address_and_intents none f = f
set_address_and_intents (some a) f =
    set_parsed_amount a.amount (set_parsed_currency a.currency (record f { address = a.address }))

-- `${ADDR_PROTOCOL_PREFIX}${recvAddress}?c=${currency}`.
unfoldable pub receiving_link : List ℕ → List ℕ → List ℕ
receiving_link recv_address currency =
    addr_protocol_prefix ++ recv_address ++ b'?' ∷ b'c' ∷ b'=' ∷ currency
