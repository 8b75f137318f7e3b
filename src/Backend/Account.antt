-- ===== src/Backend/Account.antt =====
-- The methods "Account" and "CICO" of frontend/src/services/backendClient.ts, and interfaces/cico.ts.
use reference_wallet.Base.{Option, none, some, String, ℕ, [], ◌∷◌, ◌>>=◌}
use reference_wallet.Amount.{whole}
use reference_wallet.Amount.Text.{Fraction}
use reference_wallet.Backend.Http.{
  Value, Call, get, undefined, number, string, end, field, get_field, join, get_call, post_call,
  post_empty_call, whole_data, nothing,
}
use reference_wallet.Backend.User.{or_absent}

unfoldable pub get_account : Call Value
get_account = get_call "/account" whole_data

unfoldable pub create_receiving_address : Call Value
unfolding get_field
create_receiving_address = post_empty_call "/account/receiving-addresses" (get_field "address")

unfoldable pub get_rates : Call Value
unfolding get_field
get_rates = get_call "/account/rates" (get_field "rates")

abbrev pub or_absent_number : Option ℕ → Value
or_absent_number none = undefined
or_absent_number (some n) = number (whole n)

unfoldable pub get_transactions :
    Option String → Option String → Option String → Option ℕ → Call Value
unfolding get_field
get_transactions currency direction sort limit = record {
  method = get;
  path = "/account/transactions";
  query =
      ("currency", or_absent currency)
      ∷ ("direction", or_absent direction)
      ∷ ("sort", or_absent sort)
      ∷ ("limit", or_absent_number limit)
      ∷ [];
  body = none;
  decode = get_field "transaction_list";
}

unfoldable pub create_transaction : String → Fraction → String → Call Value
create_transaction currency amount receiver_address =
    post_call "/account/transactions"
      (field "currency" (string currency)
        (field "amount" (number amount) (field "receiver_address" (string receiver_address) end)))
      whole_data

pub data QuoteAction : Type 0 where
  buy sell : QuoteAction

abbrev pub action_text : QuoteAction → String
action_text buy = "buy"
action_text sell = "sell"

-- The fields hold what the backend sent: types are not checked at run time. `expiration_time` is the
-- argument of `new Date`.
pub record Quote : Type 0 where
  pub quote_id : Value
  pub rfq : Value
  pub price : Value
  pub expiration_time : Value

unfoldable pub decode_quote : Value → Option Quote
unfolding get_field
decode_quote v = do
  quote_id ← get_field "quote_id" v
  rfq ← get_field "rfq" v
  price ← get_field "price" v
  expiration_time ← get_field "expiration_time" v
  some (record { quote_id = quote_id; rfq = rfq; price = price; expiration_time = expiration_time })

unfoldable pub request_quote : QuoteAction → String → String → Fraction → Call Quote
unfolding decode_quote join
request_quote action base_currency quote_currency amount =
    post_call "/account/quotes"
      (field "action" (string (action_text action)) (
        field "amount" (number amount)
          (field "currency_pair" (string (join (base_currency ∷ "_" ∷ quote_currency ∷ []))) end)))
      decode_quote

unfoldable pub request_deposit_quote : String → String → Fraction → Call Quote
unfolding request_quote
request_deposit_quote from_fiat_currency to_currency amount =
    request_quote buy to_currency from_fiat_currency amount

unfoldable pub request_withdraw_quote : String → String → Fraction → Call Quote
unfolding request_quote
request_withdraw_quote from_currency to_fiat_currency amount =
    request_quote sell from_currency to_fiat_currency amount

unfoldable pub request_convert_quote : String → String → Fraction → Call Quote
unfolding request_quote
request_convert_quote from_currency to_currency amount =
    request_quote sell from_currency to_currency amount

unfoldable pub execute_quote : String → Option ℕ → Call (Unit {0})
unfolding join
execute_quote quote_id payment_method =
    post_call (join ("/account/quotes/" ∷ quote_id ∷ "/actions/execute" ∷ []))
      (field "payment_method" (or_absent_number payment_method) end) nothing
