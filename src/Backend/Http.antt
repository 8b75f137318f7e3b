-- ===== src/Backend/Http.antt =====
-- The client of frontend/src/services/backendClient.ts, its requests and replies, and `handleError`.
use Prim.Native.String
use text.Mathlib.Text.{◌==◌ as str_eq}
use reference_wallet.Base.{
  ℕ, zero, suc, ◌/◌, ◌%◌, Bool, true, false, Option, none, some, List, [], ◌∷◌, String,
  if◌then◌else◌, ltb, ◌==◌,
}
use reference_wallet.Amount.Text.{Fraction}

-- Values of the source at run time, as far as requests and replies hold them.
mutual
  pub data Value : Type 0 where
    undefined null : Value
    bool : Bool → Value
    number : Fraction → Value
    negative : Fraction → Value
    string : String → Value
    array : Items → Value
    object : Fields → Value

  pub data Items : Type 0 where
    nil : Items
    cons : Value → Items → Items

  pub data Fields : Type 0 where
    end : Fields
    field : String → Value → Fields → Fields

unfoldable pub find_field : String → Fields → Value
find_field k end = undefined
find_field k (field j v fs) = if str_eq j k then v else find_field k fs

-- `v.k`; `none` is the `TypeError` that `undefined` and `null` throw.
unfoldable pub get_field : String → Value → Option Value
unfolding find_field
get_field k undefined = none
get_field k null = none
get_field k (object fs) = some (find_field k fs)
get_field k _ = some undefined

-- A template literal's parts put together.
unfoldable pub join : List String → String
join [] = ""
join (s ∷ ss) = String.◌++◌ s (join ss)

abbrev pub digit_text : ℕ → String
digit_text zero = "0"
digit_text (suc zero) = "1"
digit_text (suc (suc zero)) = "2"
digit_text (suc (suc (suc zero))) = "3"
digit_text (suc (suc (suc (suc zero)))) = "4"
digit_text (suc (suc (suc (suc (suc zero))))) = "5"
digit_text (suc (suc (suc (suc (suc (suc zero)))))) = "6"
digit_text (suc (suc (suc (suc (suc (suc (suc zero))))))) = "7"
digit_text (suc (suc (suc (suc (suc (suc (suc (suc zero)))))))) = "8"
digit_text (suc (suc (suc (suc (suc (suc (suc (suc (suc n))))))))) = "9"

pub print_digits : ℕ → ℕ → String
print_digits zero n = ""
print_digits (suc f) n =
    let more = String.◌++◌ (print_digits f (n / 10)) (digit_text (n % 10)) in
    if ltb n 10 then digit_text n else more

-- A number in a template literal.
unfoldable pub show_nat : ℕ → String
unfolding print_digits
show_nat n = print_digits (suc n) n

abbrev pub show_bool : Bool → String
show_bool true = "true"
show_bool false = "false"

pub data Method : Type 0 where
  get post put : Method

-- `query` is axios's option `params`; a request with no body has none.
pub record HttpRequest : Type 0 where
  pub method : Method
  pub url : String
  pub query : List (String × Value)
  pub body : Option Fields
  pub authorization : String

-- The `response` of an `AxiosError`; a body without the field `error` or `code` has none.
pub record ErrorResponse : Type 0 where
  pub status : ℕ
  pub error : Option String
  pub code : Option ℕ

-- How a request ends: with the response's `data`, with an `AxiosError`, or with another exception.
pub data Reply : Type 0 where
  resolved : Value → Reply
  axios_error : Option ErrorResponse → Reply
  thrown : Reply

pub data Exception : Type 0 where
  backend_error : String → ℕ → Exception
  username_already_exists : Exception
  unexpected : Exception

pub data Result (A : Type 0) : Type 0 where
  ok : A → Result A
  err : Exception → Result A

abbrev pub or_text : Option String → String → String
or_text none t = t
or_text (some s) t = if str_eq s "" then t else s

abbrev pub or_number : Option ℕ → ℕ → ℕ
or_number none m = m
or_number (some n) m = if n == 0 then m else n

abbrev pub status_text : Option ErrorResponse → String
status_text none = "undefined"
status_text (some r) = show_nat r.status

abbrev pub error_of : Option ErrorResponse → Option String
error_of none = none
error_of (some r) = r.error

abbrev pub code_of : Option ErrorResponse → Option ℕ
code_of none = none
code_of (some r) = r.code

abbrev pub status_of : Option ErrorResponse → ℕ
status_of none = 0
status_of (some r) = r.status

-- `handleError` of an `AxiosError`.
unfoldable pub handle_error : Option ErrorResponse → Exception
unfolding show_nat join
handle_error response =
    backend_error
      (or_text (error_of response)
        (join ("Unexpected error occurred (" ∷ status_text response ∷ ")" ∷ [])))
      (or_number (code_of response) (status_of response))

-- The key "token" of the browser's local storage.
pub record LocalStorage : Type 0 where
  pub token : Option String

unfoldable pub store_access_token : String → LocalStorage → LocalStorage
store_access_token token s = record s { token = some token }

abbrev pub nonempty : String → Option String
nonempty t = if str_eq t "" then none else some t

unfoldable pub get_access_token : LocalStorage → Option String
get_access_token s = elim (s.token) [ none ↦ none | some t ↦ nonempty t ]

unfoldable pub remove_access_token : LocalStorage → LocalStorage
remove_access_token s = record s { token = none }

abbrev pub or_undefined : Option String → String
or_undefined none = "undefined"
or_undefined (some t) = t

pub record BackendClient : Type 0 where
  pub base_url : String
  pub authorization : String

-- The constructor, with `process.env.REACT_APP_BACKEND_URL`.
unfoldable pub new_client : Option String → LocalStorage → BackendClient
unfolding get_access_token join
new_client backend_url s = record {
  base_url = or_text backend_url "/api";
  authorization = join ("Bearer " ∷ or_undefined (get_access_token s) ∷ []);
}

-- What a method asks for and what it makes of the response's `data`; `none` is an exception.
pub record Call (A : Type 0) : Type 0 where
  pub method : Method
  pub path : String
  pub query : List (String × Value)
  pub body : Option Fields
  pub decode : Value → Option A

abbrev pub get_call : {A : Type 0} → String → (Value → Option A) → Call A
get_call path decode = record {
  method = get;
  path = path;
  query = [];
  body = none;
  decode = decode;
}

abbrev pub post_call : {A : Type 0} → String → Fields → (Value → Option A) → Call A
post_call path body decode = record {
  method = post;
  path = path;
  query = [];
  body = some body;
  decode = decode;
}

abbrev pub post_empty_call : {A : Type 0} → String → (Value → Option A) → Call A
post_empty_call path decode = record {
  method = post;
  path = path;
  query = [];
  body = none;
  decode = decode;
}

abbrev pub put_call : {A : Type 0} → String → Fields → (Value → Option A) → Call A
put_call path body decode = record {
  method = put;
  path = path;
  query = [];
  body = some body;
  decode = decode;
}

-- What the methods return: `response.data`, a field of it, or nothing.
abbrev pub whole_data : Value → Option Value
whole_data v = some v

abbrev pub nothing : Value → Option (Unit {0})
nothing v = some tt

unfoldable pub request_of : {A : Type 0} → BackendClient → Call A → HttpRequest
unfolding join
request_of client c = record {
  method = c.method;
  url = join (client.base_url ∷ c.path ∷ []);
  query = c.query;
  body = c.body;
  authorization = client.authorization;
}

abbrev pub decoded : {A : Type 0} → Option A → Result A
decoded none = err unexpected
decoded (some a) = ok a

-- The `try` and `catch` that the methods share.
unfoldable pub result_of : {A : Type 0} → (Value → Option A) → Reply → Result A
unfolding handle_error
result_of decode (resolved v) = decoded (decode v)
result_of decode (axios_error response) = err (handle_error response)
result_of decode thrown = err unexpected

module _ {S : Type 0} (server : S → HttpRequest → S × Reply) (client : BackendClient) where
  unfoldable pub perform : {A : Type 0} → Call A → S → S × Result A
  unfolding request_of result_of
  perform c s = let (s', reply) = server s (request_of client c) in (s', result_of c.decode reply)
