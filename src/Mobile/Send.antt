-- ===== src/Mobile/Send.antt =====
-- The mobile screens mobile/src/screens/Send/Send.tsx and SendReview.tsx. `decodeURIComponent` is a
-- parameter, as in Send/Intents.antt; the pushes of a screen are taken to end at once.
pub mod Link
pub mod Once
mod Tests
use reference_wallet.Base.{
  ℕ, Bool, true, false, ◌&&◌, Option, none, some, List, [], ◌∷◌, ◌==◌, if◌then◌else◌,
}
use mathlib.Core.Option
use reference_wallet.Amount.Text.{Fraction, to_locale_string, parse_float}
use reference_wallet.Send.Intents.{AddressWithIntents, strip_prefix, or_text, split_on, parse_parts}
use reference_wallet.Send.Form.{
  CurrencyBalance, balance_of, is_filled, valid_address, valid_vasp_address,
}
use reference_wallet.Mobile.Amount.{diem_from_float}
use reference_wallet.Mobile.Number.{to_number}
use reference_wallet.Mobile.Rules.{number_of, is_high_enough, is_within_balance}
use reference_wallet.Mobile.Review
use reference_wallet.Mobile.Review.{Stack, push, is_on_top, no_screens}

abbrev pub libra_prefix : List ℕ
libra_prefix = b'd' ∷ b'i' ∷ b'e' ∷ b'm' ∷ b':' ∷ b'/' ∷ b'/' ∷ []

unfoldable pub parse_diem_address : (List ℕ → Option (List ℕ)) → List ℕ → Option AddressWithIntents
unfolding strip_prefix parse_parts split_on
parse_diem_address decode_uri_component address =
    let stripped = or_text (strip_prefix libra_prefix address) address in
    parse_parts decode_uri_component (split_on b'?' stripped) stripped

pub record SendData : Type 0 where
  pub diem_currency : Option (List ℕ)
  pub fiat_currency : Option (List ℕ)
  pub diem_amount : Option (List ℕ)
  pub diem_address : Option (List ℕ)

-- `parsedAddress.amount.toString()`, of an amount with at most six decimals that is below 10 ^ 21.
abbrev pub amount_text : Fraction → List ℕ
amount_text x = to_locale_string 0 6 false x

-- An empty currency, and an amount that is 0 or NaN, is not set.
abbrev pub set_parsed_currency : Option (List ℕ) → SendData → SendData
set_parsed_currency (some (c ∷ cs)) d = record d { diem_currency = some (c ∷ cs) }
set_parsed_currency _ d = d

abbrev pub set_parsed_amount : Option (Option Fraction) → SendData → SendData
set_parsed_amount (some (some x)) d =
    if x.num == 0 then d else record d { diem_amount = some (amount_text x) }
set_parsed_amount _ d = d

-- A `URIError` leaves the form as it is.
unfoldable pub set_address_and_intents : Option AddressWithIntents → SendData → SendData
unfolding to_locale_string
set_address_and_intents none d = d
set_address_and_intents (some a) d =
    set_parsed_amount a.amount
      (set_parsed_currency a.currency (record d { diem_address = some a.address }))

-- The effect, which has no list of dependencies: it follows every rendering. `link` is the property
-- `addressWithIntents`.
unfoldable pub after_render : (List ℕ → Option (List ℕ)) → Option (List ℕ) → SendData → SendData
unfolding set_address_and_intents parse_diem_address
after_render decode_uri_component (some (c ∷ cs)) d =
    set_address_and_intents (parse_diem_address decode_uri_component (c ∷ cs)) d
after_render decode_uri_component _ d = d

-- The fields that the form watches; a change of one renders the form.
pub data Edit : Type 0 where
  type_amount choose_currency choose_fiat_currency : List ℕ → Edit

unfoldable pub edit : (List ℕ → Option (List ℕ)) → Option (List ℕ) → SendData → Edit → SendData
unfolding after_render
edit decode_uri_component link d (type_amount text) =
    after_render decode_uri_component link (record d { diem_amount = some text })
edit decode_uri_component link d (choose_currency text) =
    after_render decode_uri_component link (record d { diem_currency = some text })
edit decode_uri_component link d (choose_fiat_currency text) =
    after_render decode_uri_component link (record d { fiat_currency = some text })

-- What is known of the balance of a chosen currency.
abbrev pub chosen_balance : List CurrencyBalance → Option (List ℕ) → Option (Option ℕ)
chosen_balance balances none = none
chosen_balance balances (some []) = none
chosen_balance balances (some (c ∷ cs)) = some (balance_of (c ∷ cs) balances)

-- The rules of all fields.
unfoldable pub accepts : List CurrencyBalance → SendData → Bool
unfolding is_high_enough is_within_balance balance_of valid_vasp_address
accepts balances d =
    is_filled d.diem_currency
    && (valid_address d.diem_address
        && (is_high_enough d.diem_amount
            && (is_within_balance (chosen_balance balances d.diem_currency) d.diem_amount
                && is_filled d.fiat_currency)))

-- The arguments of `createTransaction`; the amount is that of the text's `Number`, `none` for NaN.
pub record Transaction : Type 0 where
  pub currency : Option (List ℕ)
  pub amount : Option ℕ
  pub receiver_address : Option (List ℕ)

-- The review's properties, as the call of its `handleSubmit` takes them.
unfoldable pub transaction_of : SendData → Transaction
unfolding to_number diem_from_float
transaction_of d = record {
  currency = d.diem_currency;
  amount = Option.map diem_from_float (number_of d.diem_amount);
  receiver_address = d.diem_address;
}

pub data Event : Type 0 where
  submit : SendData → Event
  reviewed : Review.Event → Event

-- `onFormSubmit` pushes the review over the form.
unfoldable pub step : List CurrencyBalance → Stack SendData → Event → Stack SendData
unfolding push Review.step
step balances s (submit d) = if is_on_top s && accepts balances d then push d s else s
step balances s (reviewed e) = Review.step s e

unfoldable pub mount : Stack SendData
mount = no_screens

-- What the presses and the ends of the calls lead to.
pub data Reach (balances : List CurrencyBalance) : Stack SendData → Type 0 where
  mounted : Reach balances mount
  next : {s : Stack SendData} (e : Event) → Reach balances s → Reach balances (step balances s e)
