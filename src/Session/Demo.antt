-- ===== src/Session/Demo.antt =====
-- The demo account: `registerDemoUser` of frontend/src/pages/Home.tsx with the redirection of a user who is
-- not verified, and `signupDemoUser` of pages/Signin.tsx. A date is the text that its `format` gives.
use text.Mathlib.Text.{◌==◌ as str_eq}
use reference_wallet.Base.{Bool, true, false, Option, none, some, String, if◌then◌else◌}
use reference_wallet.Session.{Signin, demo_account}
use reference_wallet.Verify.Forms.{UserInfo}

pub data RegistrationStatus : Type 0 where
  registered pending verified approved rejected : RegistrationStatus

-- What `Home` reads of the user of the settings.
pub record User : Type 0 where
  pub username : String
  pub registration_status : RegistrationStatus

-- `userVerificationRequired`.
abbrev pub is_unverified : RegistrationStatus → Bool
is_unverified RegistrationStatus.registered = true
is_unverified RegistrationStatus.verified = true
is_unverified _ = false

unfoldable pub verification_required : Option User → Bool
verification_required none = false
verification_required (some u) = is_unverified u.registration_status

abbrev pub is_demo : Option User → Bool
is_demo none = false
is_demo (some u) = str_eq u.username demo_account

pub demo_information : UserInfo
demo_information = record {
  selected_fiat_currency = "USD";
  selected_language = "en";
  first_name = "Demo";
  last_name = "User";
  dob = "2018-11-10";
  phone = "1 123-456-7890";
  country = some "US";
  state = "California";
  city = "San Francisco";
  address_1 = "58 Middle Point Rd";
  address_2 = "";
  zip = "94124";
}

-- What the effect does: nothing, a call of `updateUserInfo`, or `setRedirectToVerification(true)`.
pub data Effect : Type 0 where
  nothing : Effect
  update_user_info : UserInfo → Effect
  to_verification : Effect

unfoldable pub register_demo_user : Option User → Effect
unfolding verification_required
register_demo_user user =
    if is_demo user
    then (if verification_required user then update_user_info demo_information else nothing)
    else (if verification_required user then to_verification else nothing)

-- The home page shows the wallet of an approved user, and a message to all others.
pub data Shown : Type 0 where
  loader message wallet : Shown

abbrev is_approved : RegistrationStatus → Bool
is_approved RegistrationStatus.approved = true
is_approved _ = false

unfoldable pub show_home : Option User → Shown
unfolding is_approved
show_home none = loader
show_home (some u) = if is_approved u.registration_status then wallet else message

-- `signupDemoUser` once its call has ended, in whatever way: the credentials of the demo are filled in.
unfoldable pub fill_demo : Signin → Signin
fill_demo s =
    if s.demo_mode then record s { username = demo_account; password = "Demo_customer1@" } else s
