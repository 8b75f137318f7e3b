-- ===== src/Payment/Params/Relation.antt =====
-- Which links frontend/src/utils/payment-params.ts accepts, as a relation, and the steps of the code
-- against it.
use text.Mathlib.TextEquality.{eq_iff}
use reference_wallet.Base.{
  ◌≡◌, ◌≢◌, refl, Bool, true, false, Option, none, some, List, String, length, arith, Option-cases,
  Bool-cases, inl, inr, ap, subst,
}
use reference_wallet.Payment.Params.{
  CheckoutDataType, PaymentAction, Number, Timestamp, is_zero, PaymentParams, Browser,
  PaymentParamError, Parsed, ok, err, ◌>>=◌, require, first_value, get_param, to_checkout_data_type,
  to_action, nonzero_number, known_type, known_action, exact_date, short_params, is_demo,
}

-- The link's first value of a name, which is not empty.
abbrev pub Has : List (String × String) → String → String → Type 0
Has params name v = (first_value name params ≡ some v) × (v ≢ "")

-- What a link with all details says.
pub record IsDetailed (b : Browser) (params : List (String × String)) (p : PaymentParams)
    : Type 0 where
  pub redirect_url : String
  pub merchant_name : String
  pub type_txt : String
  pub action_txt : String
  pub currency : String
  pub amount_txt : String
  pub expiration_txt : String
  pub checkout_data_type : CheckoutDataType
  pub action : PaymentAction
  pub amount : Number
  pub expiration : Timestamp
  pub not_three : length params ≢ 3
  pub not_four : length params ≢ 4
  pub has_vasp_address : Has params "vaspAddress" p.vasp_address
  pub has_reference_id : Has params "referenceId" p.reference_id
  pub has_redirect_url : Has params "redirectUrl" redirect_url
  pub has_merchant_name : Has params "merchantName" merchant_name
  pub has_type : Has params "checkoutDataType" type_txt
  pub has_action : Has params "action" action_txt
  pub has_currency : Has params "currency" currency
  pub has_amount : Has params "amount" amount_txt
  pub has_expiration : Has params "expiration" expiration_txt
  pub url_valid : b.is_url redirect_url ≡ true
  pub uuid_valid : b.is_uuid p.reference_id ≡ true
  pub amount_valid : (b.to_number amount_txt ≡ some amount) × (is_zero amount ≡ false)
  pub type_valid : to_checkout_data_type type_txt ≡ some checkout_data_type
  pub action_valid : to_action action_txt ≡ some action
  pub expiration_valid :
      (b.to_date expiration_txt ≡ some expiration) × (b.to_iso_string expiration ≡ expiration_txt)
  pub same : p ≡ record p {
    is_full = true;
    demo = is_demo b params "demo";
    merchant_name = some merchant_name;
    checkout_data_type = some checkout_data_type;
    action = some action;
    currency = some currency;
    amount = some amount;
    expiration = some expiration;
    redirect_url = some redirect_url;
  }

-- The parameters that a link stands for: three parameters name the merchant's address and the
-- reference, four also a URL to return to, and any other number all details.
pub data Accepts (b : Browser) (params : List (String × String)) (p : PaymentParams) : Type 0 where
  brief :
      (vasp_address reference_id : String)
      → length params ≡ 3
      → Has params "vaspAddress" vasp_address
      → Has params "referenceId" reference_id
      → p ≡ short_params vasp_address reference_id none
      → Accepts b params p
  returning :
      (vasp_address reference_id redirect_url : String)
      → length params ≡ 4
      → Has params "vaspAddress" vasp_address
      → Has params "referenceId" reference_id
      → Has params "redirectUrl" redirect_url
      → b.is_url redirect_url ≡ true
      → p ≡ short_params vasp_address reference_id (some redirect_url)
      → Accepts b params p
  detailed : IsDetailed b params p → Accepts b params p

pub get_param-eq-ok :
    (params : List (String × String)) (name : String) {v : String}
    → get_param params name ≡ ok v
    → Has params name v
unfolding get_param
get_param-eq-ok params name {v} h = elim (Option-cases (first_value name params)) [
  | inl missing ↦ absurd (cc (rw (missing, get_param) at h))
  | inr (w, found) ↦ ground (arith, eq_iff w "", eq_iff v "")
]

pub get_param_of_Has :
    (params : List (String × String)) (name : String) {v : String}
    → Has params name v
    → get_param params name ≡ ok v
unfolding get_param
get_param_of_Has params name {v} (found, full) = ground (arith, eq_iff v "")

-- A chain that succeeds has a first step that succeeds.
pub >>=-elim :
    {A B : Type 0} {C : Type 0} (m : Parsed A) (f : A → Parsed B) {b : B}
    → (m >>= f) ≡ ok b
    → ((a : A) → m ≡ ok a → f a ≡ ok b → C)
    → C
>>=-elim (ok a) f h k = k a refl h
>>=-elim (err e) f h k = absurd (cc)

pub ok-injective : {A : Type 0} {a b : A} → Path (Parsed A) (ok a) (ok b) → a ≡ b
ok-injective h = cc

pub require-eq-ok :
    (c : Bool) (e : PaymentParamError) {u : Unit {0}} → require c e ≡ ok u → c ≡ true
require-eq-ok true e h = refl
require-eq-ok false e h = absurd (cc)

pub nonzero_number-eq-ok :
    (o : Option Number) {x : Number} → nonzero_number o ≡ ok x → (o ≡ some x) × (is_zero x ≡ false)
nonzero_number-eq-ok none {x} h = absurd (cc)
nonzero_number-eq-ok (some y) {x} h = elim (Bool-cases (is_zero y)) [
  | inl zero ↦ absurd (cc (rw zero at h))
  | inr nonzero ↦
      let same : y ≡ x = ok-injective (rw nonzero at h) in
      (ap some same, subst (λ (z : Number). is_zero z ≡ false) same nonzero)
]

pub exact_date-eq-ok :
    (b : Browser) (o : Option Timestamp) (t : String) {d : Timestamp}
    → exact_date b o t ≡ ok d
    → (o ≡ some d) × (b.to_iso_string d ≡ t)
exact_date-eq-ok b none t h = absurd (cc)
exact_date-eq-ok b (some d') t {d} h =
    ground (arith, eq_iff (b.to_iso_string d') t, eq_iff (b.to_iso_string d) t)

pub known_type-eq-ok :
    (o : Option CheckoutDataType) {t : CheckoutDataType} → known_type o ≡ ok t → o ≡ some t
known_type-eq-ok o h = ground arith

pub known_action-eq-ok :
    (o : Option PaymentAction) {a : PaymentAction} → known_action o ≡ ok a → o ≡ some a
known_action-eq-ok o h = ground arith

pub nonzero_number_lem :
    (o : Option Number) {x : Number} → o ≡ some x → is_zero x ≡ false → nonzero_number o ≡ ok x
nonzero_number_lem o {x} h k = rw (h, k) refl

pub exact_date_lem :
    (b : Browser) (o : Option Timestamp) (t : String) {d : Timestamp}
    → o ≡ some d
    → b.to_iso_string d ≡ t
    → exact_date b o t ≡ ok d
exact_date_lem b o t {d} h k = ground (arith, eq_iff (b.to_iso_string d) t)
