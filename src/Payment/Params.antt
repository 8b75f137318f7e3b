-- ===== src/Payment/Params.antt =====
-- frontend/src/utils/payment-params.ts and interfaces/payment_details.ts. The browser's URL, query
-- and date functions, `Number` on a text, and the package uuid are a parameter of the model. A date
-- is its count of milliseconds since or before 1970.
pub mod Relation
pub mod Accepts
mod Tests
use Prim.Native.String
use text.Mathlib.Text.{◌==◌ as str_eq}
use reference_wallet.Base.{
  ℕ, ◌≡◌, Bool, true, false, not, ◌||◌, Option, none, some, List, [], ◌∷◌, String, if◌then◌else◌,
  ◌==◌, length,
}
use reference_wallet.Amount.Text.{Fraction}

pub data CheckoutDataType : Type 0 where
  payment_request : CheckoutDataType

pub data PaymentAction : Type 0 where
  authorization charge : PaymentAction

-- What `Number(…)` gives but for NaN.
pub data Number : Type 0 where
  positive negative : Fraction → Number
  infinity negative_infinity : Number

-- The milliseconds of a date.
pub data Timestamp : Type 0 where
  since before : ℕ → Timestamp

pub record PaymentParams : Type 0 where
  pub is_full : Bool
  pub vasp_address : String
  pub reference_id : String
  pub demo : Bool
  pub merchant_name : Option String
  pub checkout_data_type : Option CheckoutDataType
  pub action : Option PaymentAction
  pub currency : Option String
  pub amount : Option Number
  pub expiration : Option Timestamp
  pub redirect_url : Option String

-- What the browser and the package uuid compute: the pairs of `URLSearchParams`, whether `new URL`
-- succeeds, whether uuid's `parse` and `stringify` succeed, `Number(…)` with `none` for NaN,
-- `new Date(…)` with `none` for an invalid date, `toISOString` and `toLowerCase`.
pub record Browser : Type 0 where
  pub search_params : String → List (String × String)
  pub is_url : String → Bool
  pub is_uuid : String → Bool
  pub to_number : String → Option Number
  pub to_date : String → Option Timestamp
  pub to_iso_string : Timestamp → String
  pub to_lower_case : String → String

-- The messages of `PaymentParamError`.
pub data PaymentParamError : Type 0 where
  not_found : String → PaymentParamError
  invalid_url invalid_uuid invalid_number invalid_type invalid_action invalid_date :
      PaymentParamError

pub data Parsed (A : Type 0) : Type 0 where
  ok : A → Parsed A
  err : PaymentParamError → Parsed A

infixl 5 ◌>>=◌ ◌>>◌
abbrev pub ◌>>=◌ : {A B : Type 0} → Parsed A → (A → Parsed B) → Parsed B
ok a >>= f = f a
err e >>= f = err e

abbrev pub ◌>>◌ : {B : Type 0} → Parsed (Unit {0}) → Parsed B → Parsed B
m >> k = m >>= λ _. k

abbrev pub require : Bool → PaymentParamError → Parsed (Unit {0})
require true e = ok tt
require false e = err e

-- `URLSearchParams.get`: the first value of a name.
unfoldable pub first_value : String → List (String × String) → Option String
first_value name [] = none
first_value name ((k, v) ∷ params) = if str_eq k name then some v else first_value name params

-- A missing or empty value is an error.
unfoldable pub get_param : List (String × String) → String → Parsed String
unfolding first_value
get_param params name = elim (first_value name params) [
  | none ↦ err (not_found name)
  | some v ↦ if str_eq v "" then err (not_found name) else ok v
]

-- The look-ups in the two enumerations; any other text gives no value of the type.
unfoldable pub to_checkout_data_type : String → Option CheckoutDataType
to_checkout_data_type s = if str_eq s "PAYMENT_REQUEST" then some payment_request else none

unfoldable pub to_action : String → Option PaymentAction
to_action s =
    if str_eq s "AUTHORIZATION"
    then some authorization
    else if str_eq s "CHARGE"
    then some charge
    else none

abbrev pub is_zero : Number → Bool
is_zero (positive x) = x.num == 0
is_zero (negative x) = x.num == 0
is_zero infinity = false
is_zero negative_infinity = false

-- `!amount` rejects NaN and zero, and no negative number.
abbrev pub nonzero_number : Option Number → Parsed Number
nonzero_number none = err invalid_number
nonzero_number (some x) = if is_zero x then err invalid_number else ok x

abbrev pub known_type : Option CheckoutDataType → Parsed CheckoutDataType
known_type none = err invalid_type
known_type (some t) = ok t

abbrev pub known_action : Option PaymentAction → Parsed PaymentAction
known_action none = err invalid_action
known_action (some a) = ok a

-- The parameters of a link that holds no more than the merchant's address and reference.
unfoldable pub short_params : String → String → Option String → PaymentParams
short_params vasp_address reference_id redirect_url = record {
  is_full = false;
  vasp_address = vasp_address;
  reference_id = reference_id;
  demo = false;
  merchant_name = none;
  checkout_data_type = none;
  action = none;
  currency = none;
  amount = none;
  expiration = none;
  redirect_url = redirect_url;
}

module _ (b : Browser) where
  unfoldable pub is_demo : List (String × String) → String → Bool
  unfolding first_value
  is_demo params name = elim (first_value name params) [
    | none ↦ false
    | some v ↦ str_eq (b.to_lower_case v) "true"
  ]

  -- A date whose text in the ISO format is the text given.
  abbrev pub exact_date : Option Timestamp → String → Parsed Timestamp
  exact_date none t = err invalid_date
  exact_date (some d) t = if str_eq (b.to_iso_string d) t then ok d else err invalid_date

  -- What follows the two early returns.
  unfoldable pub full_params :
      List (String × String) → String → String → String → Parsed PaymentParams
  full_params params vasp_address reference_id redirect_url = do
    let demo = is_demo params "demo"
    merchant_name ← get_param params "merchantName"
    type_txt ← get_param params "checkoutDataType"
    action_txt ← get_param params "action"
    currency ← get_param params "currency"
    amount_txt ← get_param params "amount"
    expiration_txt ← get_param params "expiration"
    require (b.is_uuid reference_id) invalid_uuid
    amount ← nonzero_number (b.to_number amount_txt)
    checkout_data_type ← known_type (to_checkout_data_type type_txt)
    action ← known_action (to_action action_txt)
    expiration ← exact_date (b.to_date expiration_txt) expiration_txt
    ok (record {
      is_full = true;
      vasp_address = vasp_address;
      reference_id = reference_id;
      demo = demo;
      merchant_name = some merchant_name;
      checkout_data_type = some checkout_data_type;
      action = some action;
      currency = some currency;
      amount = some amount;
      expiration = some expiration;
      redirect_url = some redirect_url;
    })

  unfoldable pub params_of : List (String × String) → Parsed PaymentParams
  params_of params = do
    vasp_address ← get_param params "vaspAddress"
    reference_id ← get_param params "referenceId"
    let rest = do
      redirect_url ← get_param params "redirectUrl"
      require (b.is_url redirect_url) invalid_url
      (if length params == 4
          then ok (short_params vasp_address reference_id (some redirect_url))
          else full_params params vasp_address reference_id redirect_url)
    if length params == 3 then ok (short_params vasp_address reference_id none) else rest

  unfoldable pub from_url_query_string : String → Parsed PaymentParams
  from_url_query_string query_string = params_of (b.search_params query_string)

pub record PaymentDetails : Type 0 where
  pub action : String
  pub amount : ℕ
  pub currency : String
  pub expiration : ℕ
  pub merchant_name : String
  pub reference_id : String
  pub vasp_address : String
  pub demo : Bool

unfoldable pub from_payment_details : PaymentDetails → Option String → PaymentParams
unfolding to_action
from_payment_details payment_info redirect_url = record {
  is_full = true;
  vasp_address = payment_info.vasp_address;
  reference_id = payment_info.reference_id;
  demo = payment_info.demo;
  merchant_name = some payment_info.merchant_name;
  checkout_data_type = some payment_request;
  action = to_action payment_info.action;
  currency = some payment_info.currency;
  amount = some (positive (record { num = payment_info.amount; den = 1 }));
  expiration = some (since payment_info.expiration);
  redirect_url = redirect_url;
}
