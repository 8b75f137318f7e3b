-- ===== src/Send/Form.antt =====
-- The form of frontend/src/components/Send/SendForm.tsx: what it collects, and the rules under which
-- react-hook-form calls `onSubmit` with it.
use reference_wallet.Base.{
  ℕ, ◌*◌, Bool, true, false, ◌&&◌, ◌||◌, Option, none, some, List, [], ◌∷◌, leb, ◌==◌,
  if◌then◌else◌, length,
}
use reference_wallet.Amount.{diem_amount_from_float}
use reference_wallet.Amount.Text.{Fraction}
use reference_wallet.Send.Intents.{text_eq}

-- `Send` of interfaces.ts.
pub record SendData : Type 0 where
  pub currency : Option (List ℕ)
  pub fiat_currency : List ℕ
  pub amount : Option Fraction
  pub address : Option (List ℕ)

pub record CurrencyBalance : Type 0 where
  pub currency : List ℕ
  pub balance : ℕ

-- `balances.find((balance) => balance.currency === selectedCurrency)`.
unfoldable pub balance_of : List ℕ → List CurrencyBalance → Option ℕ
unfolding text_eq
balance_of currency [] = none
balance_of currency (b ∷ balances) =
    let rest = balance_of currency balances in
    if text_eq b.currency currency then some b.balance else rest

abbrev pub is_alphanumeric : ℕ → Bool
is_alphanumeric c =
    leb b'a' c && leb c b'z' || (leb b'A' c && leb c b'Z' || leb b'0' c && leb c b'9')

unfoldable pub all_alphanumeric : List ℕ → Bool
all_alphanumeric [] = true
all_alphanumeric (c ∷ cs) = is_alphanumeric c && all_alphanumeric cs

-- `VALID_VASP_ADDRESS_REGEX`: fifty letters and digits.
unfoldable pub valid_vasp_address : List ℕ → Bool
unfolding all_alphanumeric
valid_vasp_address address = length address == 50 && all_alphanumeric address

-- The rule `validate` of the amount. It throws if the account has no balance of the currency.
pub data Validation : Type 0 where
  valid no_more_than_balance type_error : Validation

abbrev pub is_valid : Validation → Bool
is_valid Validation.valid = true
is_valid _ = false

abbrev pub within : ℕ → Option ℕ → Validation
within amount none = Validation.type_error
within amount (some balance) =
    if leb amount balance then Validation.valid else Validation.no_more_than_balance

unfoldable pub validate_amount : List CurrencyBalance → Option (List ℕ) → Fraction → Validation
unfolding diem_amount_from_float balance_of
validate_amount balances none entered = Validation.valid
validate_amount balances (some currency) entered =
    within (diem_amount_from_float entered) (balance_of currency balances)

-- The rule `min` of the amount: at least 0.0001.
abbrev pub at_least_min : Fraction → Bool
at_least_min x = leb x.den (x.num * 10000)

unfoldable pub valid_amount : List CurrencyBalance → Option (List ℕ) → Option Fraction → Bool
unfolding validate_amount
valid_amount balances currency none = false
valid_amount balances currency (some x) =
    at_least_min x && is_valid (validate_amount balances currency x)

abbrev pub is_filled : Option (List ℕ) → Bool
is_filled (some (c ∷ cs)) = true
is_filled _ = false

abbrev pub valid_address : Option (List ℕ) → Bool
valid_address none = false
valid_address (some address) = valid_vasp_address address

-- Every rule of every field holds.
unfoldable pub accepts : List CurrencyBalance → SendData → Bool
unfolding valid_amount valid_vasp_address
accepts balances d =
    is_filled d.currency
    && (valid_address d.address
        && (valid_amount balances d.currency d.amount && is_filled (some d.fiat_currency)))
