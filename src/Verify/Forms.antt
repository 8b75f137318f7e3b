-- ===== src/Verify/Forms.antt =====
-- The information that the identity wizard gathers, and the forms of its steps:
-- frontend/src/pages/VerifySteps/Step1Identity.tsx to Step5DefaultCurrency.tsx, and their copies in
-- mobile/src/screens/VerifySteps. A name, a date or a number of the user's is a text, whose length is
-- that of its list of character codes. The forms are those of a build that is not for production, where
-- no field is disabled.
use text.Mathlib.Text.{◌==◌ as str_eq}
use reference_wallet.Base.{
  ℕ, Bool, true, false, not, ◌&&◌, ◌||◌, Option, none, some, List, [], ◌∷◌, String, leb, ltb,
  length, ◌==◌, codes, get_elem?,
}
use reference_wallet.Backend.Http.{join}
use reference_wallet.Send.Intents.{split_on}

-- `UserInfo`, with the fields that a step submits.
pub record UserInfo : Type 0 where
  pub selected_fiat_currency : String
  pub selected_language : String
  pub first_name : String
  pub last_name : String
  pub dob : String
  pub phone : String
  pub country : Option String
  pub state : String
  pub city : String
  pub address_1 : String
  pub address_2 : String
  pub zip : String

-- The values of a step's form. Each step submits `{ ...info, …values }`, and the wizard merges it
-- into the information, which is that `info`.
pub data StepValues : Type 0 where
  identity : String → String → String → String → String → StepValues
  country : String → StepValues
  address : String → String → String → String → String → StepValues
  default_currency : String → StepValues

unfoldable pub merge : UserInfo → StepValues → UserInfo
unfolding join
merge u (identity first last dob phone_prefix phone_number) = record u {
  first_name = first;
  last_name = last;
  dob = dob;
  phone = join (phone_prefix ∷ " " ∷ phone_number ∷ []);
}
merge u (country code) = record u { country = some code }
merge u (address address_1 address_2 city state zip) = record u {
  address_1 = address_1;
  address_2 = address_2;
  city = city;
  state = state;
  zip = zip;
}
merge u (default_currency code) = record u { selected_fiat_currency = code }

-- The step whose form has these values.
abbrev pub step_of : StepValues → ℕ
step_of (identity _ _ _ _ _) = 1
step_of (country _) = 2
step_of (address _ _ _ _ _) = 3
step_of (default_currency _) = 5

-- The rule `required`.
abbrev pub is_present : String → Bool
is_present s = not (str_eq s "")

-- `minLength` with 2, beside `required`.
abbrev pub is_name : String → Bool
is_name s = is_present s && leb 2 (length (codes s))

-- The characters of the class in `new RegExp("^[0-9-s()]*$")`.
abbrev pub is_phone_char : ℕ → Bool
is_phone_char c = (leb b'0' c && leb c b'9') || c == b'-' || c == b's' || c == b'(' || c == b')'

unfoldable pub are_phone_chars : List ℕ → Bool
are_phone_chars [] = true
are_phone_chars (c ∷ cs) = is_phone_char c && are_phone_chars cs

abbrev pub is_phone_number : String → Bool
is_phone_number s = is_present s && are_phone_chars (codes s)

-- Neither `!date.isValid()` nor `date.isAfter()`.
abbrev pub is_not_after : ℕ → Option ℕ → Bool
is_not_after now none = false
is_not_after now (some time) = not (ltb now time)

-- `moment` gives the time of a date, and `none` for one that is not valid; `now` is the time at which
-- a form is submitted.
module _ (moment : String → Option ℕ) where
  abbrev pub is_birthday : ℕ → String → Bool
  is_birthday now dob = is_present dob && is_not_after now (moment dob)

  -- A web form hands over its values when react-hook-form finds no rule that they break.
  unfoldable pub accepts : ℕ → StepValues → Bool
  unfolding are_phone_chars
  accepts now (identity first last dob phone_prefix phone_number) =
      is_name first
      && is_name last
      && is_birthday now dob
      && is_present phone_prefix
      && is_phone_number phone_number
  accepts now (country code) = is_present code
  accepts now (address address_1 address_2 city state zip) = is_present address_1 && is_present city
  accepts now (default_currency code) = is_present code

  -- The mobile form has no rule on the length of a name.
  unfoldable pub mobile_accepts : ℕ → StepValues → Bool
  unfolding are_phone_chars accepts
  mobile_accepts now (identity first last dob phone_prefix phone_number) =
      is_present first
      && is_present last
      && is_birthday now dob
      && is_present phone_prefix
      && is_phone_number phone_number
  mobile_accepts now v = accepts now v

-- What the first step's form shows of the information: `info.phone.split(" ")` and the effect.
pub record IdentityFields : Type 0 where
  pub first_name : String
  pub last_name : String
  pub dob : String
  pub phone_prefix : Option (List ℕ)
  pub phone_number : Option (List ℕ)

unfoldable pub show_identity : UserInfo → IdentityFields
unfolding split_on
show_identity u = record {
  first_name = u.first_name;
  last_name = u.last_name;
  dob = u.dob;
  phone_prefix = get_elem? (split_on b' ' (codes u.phone)) 0;
  phone_number = get_elem? (split_on b' ' (codes u.phone)) 1;
}
