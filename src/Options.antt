-- ===== src/Options.antt =====
-- frontend/src/utils/dropdown-options.ts: the objects that give a dropdown its options. An object is
-- the list of its keys and values, each key once; amounts are texts of character codes.
pub mod Lookup
mod Tests
use Prim.Native.String
use text.Mathlib.Text.{◌==◌ as str_eq}
use reference_wallet.Base.{
  ℕ, ◌==◌, Bool, true, false, Option, none, some, List, [], ◌∷◌, ◌++◌, map, String, if◌then◌else◌,
}
use reference_wallet.Amount.{whole, diem_amount_to_human_friendly}

-- `object[key] = value`, where `same` tells two keys apart.
unfoldable pub assign : {K V : Type 0} → (K → K → Bool) → K → V → List (K × V) → List (K × V)
assign same k v [] = (k, v) ∷ []
assign same k v ((k', v') ∷ fields) =
    let rest = assign same k v fields in if same k' k then (k', v) ∷ fields else (k', v') ∷ rest

unfoldable pub lookup : {K V : Type 0} → (K → K → Bool) → K → List (K × V) → Option V
lookup same k [] = none
lookup same k ((k', v) ∷ fields) =
    let rest = lookup same k fields in if same k' k then some v else rest

-- `items.reduce((object, item) => { object[key(item)] = value(item); return object; }, object)`.
unfoldable pub collect :
    {A K V : Type 0} → (K → K → Bool) → (A → K) → (A → V) → List (K × V) → List A → List (K × V)
unfolding assign
collect same key value fields [] = fields
collect same key value fields (item ∷ items) =
    collect same key value (assign same (key item) (value item) fields) items

pub record CurrencySettings : Type 0 where
  pub name : List ℕ
  pub sign : List ℕ

pub record CurrencyBalance : Type 0 where
  pub currency : String
  pub balance : ℕ

pub record PaymentMethod : Type 0 where
  pub id : ℕ
  pub name : String

abbrev available : List ℕ
available = b' ' ∷ b'a' ∷ b'v' ∷ b'a' ∷ b'i' ∷ b'l' ∷ b'a' ∷ b'b' ∷ b'l' ∷ b'e' ∷ b')' ∷ []

-- `${currency.name} (${balanceAmount} ${currency.sign} available)`.
unfoldable pub balance_label : CurrencySettings → ℕ → List ℕ
unfolding diem_amount_to_human_friendly
balance_label currency balance =
    currency.name
    ++ b' ' ∷ b'(' ∷ diem_amount_to_human_friendly (whole balance) true
    ++ b' ' ∷ currency.sign
    ++ available

-- `currencies` has the settings of every currency.
unfoldable pub currencies_with_balance_options :
    (String → CurrencySettings) → List CurrencyBalance → List (String × List ℕ)
unfolding collect balance_label
currencies_with_balance_options currencies balances =
    collect str_eq (λ b. b.currency) (λ b. balance_label (currencies b.currency) b.balance) []
      balances

-- `Object.keys(currencies)` are the keys of the list.
unfoldable pub get_currencies_options_map :
    List (String × CurrencySettings) → List (String × List ℕ)
unfolding collect
get_currencies_options_map currencies =
    collect str_eq (λ (c : String × CurrencySettings). c.0) (λ c. c.1.name) [] currencies

-- The pairs of a fiat currency's key and its symbol.
unfoldable pub fiat_currencies_options : List (String × String) → List (String × String)
unfolding collect
fiat_currencies_options fiat_currencies =
    collect str_eq (λ (c : String × String). c.0) (λ c. c.1) [] fiat_currencies

unfoldable pub payment_method_options : List PaymentMethod → List (ℕ × String)
unfolding collect
payment_method_options payment_methods =
    collect (λ i j. i == j) (λ m. m.id) (λ m. m.name) [] payment_methods

pub transaction_directions_options : List (String × String)
transaction_directions_options = ("received", "Incoming") ∷ ("sent", "Outgoing") ∷ []

pub transaction_sorting_options : List (String × String)
transaction_sorting_options =
    ("date_asc", "Newest to Oldest")
    ∷ ("date_desc", "Oldest to Newest")
    ∷ ("amount_desc", "Highest Amount")
    ∷ ("fiat_amount_desc", "Highest Fiat Amount")
    ∷ ("amount_asc", "Lowest Amount")
    ∷ ("fiat_amount_asc", "Lowest Fiat Amount")
    ∷ []
