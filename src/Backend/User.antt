-- ===== src/Backend/User.antt =====
-- The methods "Authentication" and "User" of frontend/src/services/backendClient.ts, and
-- interfaces/user.ts.
use reference_wallet.Base.{Option, none, some, String}
use reference_wallet.Backend.Http.{
  Value, Call, undefined, string, end, field, get_field, get_call, post_call, post_empty_call,
  put_call, whole_data, nothing,
}

unfoldable pub signup_user : String → String → Call Value
signup_user username password =
    post_call "/user" (field "username" (string username) (field "password" (string password) end))
      whole_data

unfoldable pub signin_user : String → String → Call Value
signin_user username password =
    post_call "/user/actions/signin"
      (field "username" (string username) (field "password" (string password) end)) whole_data

unfoldable pub signout_user : Call (Unit {0})
signout_user = post_empty_call "/user/actions/signout" nothing

unfoldable pub forgot_password : String → Call Value
forgot_password username =
    post_call "/user/actions/forgot_password" (field "username" (string username) end) whole_data

unfoldable pub reset_user_password : String → String → Call (Unit {0})
reset_user_password token new_password =
    post_call "/user/actions/reset_password"
      (field "token" (string token) (field "new_password" (string new_password) end)) nothing

unfoldable pub get_user : Call Value
get_user = get_call "/user" whole_data

unfoldable pub refresh_user : Call (Unit {0})
refresh_user = post_empty_call "/user/actions/refresh" nothing

-- A date of birth is a text or a value of the library moment.
pub data DateOfBirth (Moment : Type 0) : Type 0 where
  written : String → DateOfBirth Moment
  moment : Moment → DateOfBirth Moment

pub record UserInfo (Moment : Type 0) : Type 0 where
  pub selected_fiat_currency : String
  pub selected_language : String
  pub first_name : String
  pub last_name : String
  pub dob : DateOfBirth Moment
  pub phone : String
  pub country : Option String
  pub address_1 : String
  pub address_2 : String
  pub city : String
  pub state : String
  pub zip : String

abbrev pub or_absent : Option String → Value
or_absent none = undefined
or_absent (some s) = string s

-- `format` is moment's `format`.
module _ {Moment : Type 0} (format : Moment → String → String) where
  abbrev pub dob_text : DateOfBirth Moment → String
  dob_text (written s) = s
  dob_text (moment m) = format m "YYYY-MM-DD"

  unfoldable pub update_user_info : UserInfo Moment → Call Value
  update_user_info u =
      put_call "/user"
        (field "selected_fiat_currency" (string u.selected_fiat_currency) (
          field "selected_language" (string u.selected_language) (
            field "first_name" (string u.first_name) (
              field "last_name" (string u.last_name) (
                field "dob" (string (dob_text u.dob)) (
                  field "phone" (string u.phone) (
                    field "country" (or_absent u.country) (
                      field "address_1" (string u.address_1) (
                        field "address_2" (string u.address_2) (
                          field "city" (string u.city) (
                            field "state" (string u.state)
                              (field "zip" (string u.zip) end))))))))))))
        whole_data

unfoldable pub update_user_settings : String → String → Call Value
update_user_settings selected_language selected_fiat_currency =
    put_call "/user"
      (field "selected_language" (string selected_language)
        (field "selected_fiat_currency" (string selected_fiat_currency) end))
      whole_data

unfoldable pub change_user_password : String → String → Call (Unit {0})
change_user_password old_password new_password =
    post_call "/user/actions/change_password"
      (field "old_password" (string old_password) (field "new_password" (string new_password) end))
      nothing

unfoldable pub get_payment_methods : Call Value
unfolding get_field
get_payment_methods = get_call "/user/payment-methods" (get_field "payment_methods")

unfoldable pub store_payment_method : String → String → String → Call (Unit {0})
store_payment_method name provider token =
    post_call "/user/payment-methods"
      (field "name" (string name)
        (field "provider" (string provider) (field "token" (string token) end)))
      nothing
