-- ===== src/Mobile/Client.antt =====
-- The client of mobile/src/services/backendClient.ts. A number that may be NaN is an `Option`, and its
-- JSON is `null`.
pub mod Same
use reference_wallet.Base.{Option, none, some, String, ℕ, [], ◌∷◌, ◌>>=◌}
use reference_wallet.Amount.{whole}
use reference_wallet.Amount.Text.{Fraction}
use reference_wallet.Backend.Http.{
  Value, Call, Exception, backend_error, BackendClient, ErrorResponse, get, undefined, null, number,
  string, end, field, get_field, join, get_call, post_call, post_empty_call, put_call, whole_data,
  nothing, or_text, or_number, or_undefined, error_of, status_of, status_text, show_nat,
}
use reference_wallet.Backend.User.{UserInfo, DateOfBirth, or_absent, dob_text}
use reference_wallet.Backend.Account.{Quote, QuoteAction, buy, sell, action_text, or_absent_number}

-- The constructor, with `process.env.BACKEND_URL`.
unfoldable pub new_client : Option String → Option String → BackendClient
unfolding join
new_client backend_url access_token = record {
  base_url = or_text backend_url "https://demo-wallet.diem.com/api";
  authorization = join ("Bearer " ∷ or_undefined access_token ∷ []);
}

-- `handleError` of an `AxiosError`: the response's code is not looked at.
unfoldable pub handle_error : Option ErrorResponse → Exception
unfolding show_nat join
handle_error response =
    backend_error
      (or_text (error_of response)
        (join ("Unexpected error occurred (" ∷ status_text response ∷ ")" ∷ [])))
      (or_number (some (status_of response)) 0)

unfoldable pub signup_user : String → String → Call Value
signup_user username password =
    post_call "/user" (field "username" (string username) (field "password" (string password) end))
      whole_data

unfoldable pub signin_user : String → String → Call Value
signin_user username password =
    post_call "/user/actions/signin"
      (field "username" (string username) (field "password" (string password) end)) whole_data

unfoldable pub signout_user : Call (Unit {0})
signout_user = post_empty_call "/user/actions/signout" nothing

unfoldable pub get_user : Call Value
get_user = get_call "/user" whole_data

-- `format` is moment's `format`.
unfoldable pub update_user_info :
    {Moment : Type 0} → (Moment → String → String) → UserInfo Moment → Call Value
update_user_info format u =
    put_call "/user"
      (field "selected_fiat_currency" (string u.selected_fiat_currency) (
        field "selected_language" (string u.selected_language) (
          field "first_name" (string u.first_name) (
            field "last_name" (string u.last_name) (
              field "dob" (string (dob_text format u.dob)) (
                field "phone" (string u.phone) (
                  field "country" (or_absent u.country) (
                    field "address_1" (string u.address_1) (
                      field "address_2" (string u.address_2) (
                        field "city" (string u.city) (
                          field "state" (string u.state) (field "zip" (string u.zip) end))))))))))))
      whole_data

unfoldable pub update_user_settings : String → String → Call Value
update_user_settings selected_language selected_fiat_currency =
    put_call "/user"
      (field "selected_language" (string selected_language)
        (field "selected_fiat_currency" (string selected_fiat_currency) end))
      whole_data

unfoldable pub refresh_user : Call (Unit {0})
refresh_user = post_empty_call "/user/actions/refresh" nothing

unfoldable pub forgot_password : String → Call Value
forgot_password username =
    post_call "/user/actions/forgot_password" (field "username" (string username) end) whole_data

unfoldable pub reset_user_password : String → String → Call (Unit {0})
reset_user_password token new_password =
    post_call "/user/actions/reset_password"
      (field "token" (string token) (field "new_password" (string new_password) end)) nothing

unfoldable pub get_rates : Call Value
unfolding get_field
get_rates = get_call "/account/rates" (get_field "rates")

unfoldable pub get_account : Call Value
get_account = get_call "/account" whole_data

unfoldable pub get_payment_methods : Call Value
unfolding get_field
get_payment_methods = get_call "/user/payment-methods" (get_field "payment_methods")

unfoldable pub store_payment_method : String → String → String → Call (Unit {0})
store_payment_method name provider token =
    post_call "/user/payment-methods"
      (field "name" (string name)
        (field "provider" (string provider) (field "token" (string token) end)))
      nothing

unfoldable pub get_transactions :
    Option String → Option String → Option String → Option ℕ → Call Value
unfolding get_field
get_transactions currency direction sort limit = record {
  method = get;
  path = "/account/transactions";
  query =
      ("currency", or_absent currency)
      ∷ ("direction", or_absent direction)
      ∷ ("sort", or_absent sort)
      ∷ ("limit", or_absent_number limit)
      ∷ [];
  body = none;
  decode = get_field "transaction_list";
}

abbrev pub json_number : Option Fraction → Value
json_number none = null
json_number (some x) = number x

unfoldable pub create_transaction : String → Option Fraction → String → Call Value
create_transaction currency amount receiver_address =
    post_call "/account/transactions"
      (field "currency" (string currency) (
        field "amount" (json_number amount)
          (field "receiver_address" (string receiver_address) end)))
      whole_data

-- The quote, whose `expiration_time` is the argument of `new Date`.
unfoldable pub decode_quote : Value → Option Quote
unfolding get_field
decode_quote v = do
  quote_id ← get_field "quote_id" v
  rfq ← get_field "rfq" v
  price ← get_field "price" v
  expiration_time ← get_field "expiration_time" v
  some (record { quote_id = quote_id; rfq = rfq; price = price; expiration_time = expiration_time })

unfoldable pub request_quote : QuoteAction → String → String → Option Fraction → Call Quote
unfolding decode_quote join
request_quote action base_currency quote_currency amount =
    post_call "/account/quotes"
      (field "action" (string (action_text action)) (
        field "amount" (json_number amount)
          (field "currency_pair" (string (join (base_currency ∷ "_" ∷ quote_currency ∷ []))) end)))
      decode_quote

unfoldable pub request_deposit_quote : String → String → Option Fraction → Call Quote
unfolding request_quote
request_deposit_quote from_fiat_currency to_currency microdiems =
    request_quote buy to_currency from_fiat_currency microdiems

unfoldable pub request_withdraw_quote : String → String → Option Fraction → Call Quote
unfolding request_quote
request_withdraw_quote from_currency to_fiat_currency microdiems =
    request_quote sell from_currency to_fiat_currency microdiems

unfoldable pub request_convert_quote : String → String → Option Fraction → Call Quote
unfolding request_quote
request_convert_quote from_currency to_currency microdiems =
    request_quote sell from_currency to_currency microdiems

unfoldable pub execute_quote : String → Option ℕ → Call (Unit {0})
unfolding join
execute_quote quote_id payment_method =
    post_call (join ("/account/quotes/" ∷ quote_id ∷ "/actions/execute" ∷ []))
      (field "payment_method" (or_absent_number payment_method) end) nothing

unfoldable pub create_receiving_address : Option String → Call Value
unfolding get_field
create_receiving_address currency =
    post_call "/account/receiving-addresses" (field "currency" (or_absent currency) end)
      (get_field "address")
