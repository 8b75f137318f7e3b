-- ===== src/Session.antt =====
-- The session that the browser's local storage keeps: frontend/src/utils/auth-routes.tsx, the form
-- of pages/Signin.tsx, and the refresh of App.tsx that ends a session.
pub mod Demo
pub mod Laws
mod Tests
use Prim.Native.String
use text.Mathlib.Text.{◌==◌ as str_eq}
use reference_wallet.Base.{
  ℕ, ◌==◌, Bool, true, false, not, ◌&&◌, Option, none, some, List, [], ◌∷◌, String, if◌then◌else◌,
}
use reference_wallet.Backend.Http.{
  Exception, backend_error, username_already_exists, unexpected, Result, ok, err, LocalStorage,
  store_access_token, get_access_token, remove_access_token, join,
}

-- What a route renders.
pub data Rendered : Type 0 where
  component : Rendered
  redirect : String → Rendered

abbrev pub is_some : Option String → Bool
is_some none = false
is_some (some t) = true

unfoldable pub logged_in_route : LocalStorage → String → Rendered
unfolding get_access_token join
logged_in_route storage query_string =
    if is_some (get_access_token storage)
    then component
    else redirect (join ("/login" ∷ query_string ∷ []))

unfoldable pub logged_out_route : LocalStorage → Rendered
unfolding get_access_token
logged_out_route storage =
    if not (is_some (get_access_token storage)) then component else redirect "/"

pub data SubmitStatus : Type 0 where
  edit sending fail success : SubmitStatus

-- `awaiting` holds the credentials of the calls of `signinUser` that are awaited.
pub record Signin : Type 0 where
  pub username : String
  pub password : String
  pub demo_mode : Bool
  pub submit_status : SubmitStatus
  pub error_message : Option String
  pub awaiting : List (String × String)

abbrev pub demo_account : String
demo_account = "demo_customer@diem.com"

-- `onFormSubmit` up to its `await`.
unfoldable pub on_form_submit : Signin → Signin
on_form_submit s =
    if not s.demo_mode && str_eq s.username demo_account
    then record s {
      submit_status = SubmitStatus.fail;
      error_message = some "Error. Can't sign in with demo account while not in demo mode";
    }
    else record s {
      submit_status = SubmitStatus.sending;
      error_message = none;
      awaiting = (s.username, s.password) ∷ s.awaiting;
    }

-- What the `catch` of the forms shows for an exception.
abbrev pub message_of : Exception → String
message_of (backend_error message status) = message
message_of _ = "Internal Error"

-- What follows the `await`: the token that the backend answered is stored.
unfoldable pub finish_signin : Result String → Signin × LocalStorage → Signin × LocalStorage
unfolding store_access_token
finish_signin (ok token) (s, storage) =
    (record s { submit_status = SubmitStatus.success }, store_access_token token storage)
finish_signin (err e) (s, storage) =
    (record s { submit_status = SubmitStatus.fail; error_message = some (message_of e) }, storage)

-- The query string's "demo" turns the demo mode on; `to_lower_case` is the browser's.
unfoldable pub set_demo_mode : (String → String) → Option String → Signin → Signin
set_demo_mode to_lower_case none s = s
set_demo_mode to_lower_case (some is_demo) s =
    if not (str_eq is_demo "") && str_eq (to_lower_case is_demo) "true"
    then record s { demo_mode = true }
    else s

-- The session of the application: the storage, and whether the page was left for "/".
pub record App : Type 0 where
  pub storage : LocalStorage
  pub left : Bool

abbrev pub unauthorized : ℕ
unauthorized = 401

abbrev pub is_unauthorized : Exception → Bool
is_unauthorized (backend_error message status) = status == unauthorized
is_unauthorized _ = false

-- The `catch` of the refresh in `App`: an exception that is no BackendError, or has another status, is
-- dropped.
unfoldable pub catch_refresh : Exception → App → App
unfolding remove_access_token
catch_refresh e a =
    if is_unauthorized e then record { storage = remove_access_token a.storage; left = true } else a

-- One refresh, with what its `Promise.all` and the rest of its `try` end with. Without a token it
-- asks for nothing. The settings that a refresh stores are left out.
unfoldable pub refresh_user : {A : Type 0} → Result A → App → App
unfolding catch_refresh get_access_token
refresh_user (ok x) a = a
refresh_user (err e) a = if is_some (get_access_token a.storage) then catch_refresh e a else a
