-- ===== src/Auth.antt =====
-- The forms of frontend/src/pages/Signup.tsx, ForgotPassword.tsx and ResetPassword.tsx. A text is the
-- list of its character codes.
pub mod Strong
mod Tests
use reference_wallet.Base.{
  ℕ, Bool, true, false, not, ◌&&◌, ◌||◌, Option, none, some, List, [], ◌∷◌, String, leb, ◌==◌,
  length, if◌then◌else◌, get_elem?, erase_idx,
}
use reference_wallet.Send.Intents.{text_eq}
use reference_wallet.Transfer.Machine.{Outcome, ok, backend_error, other_error}

abbrev pub is_digit : ℕ → Bool
is_digit c = leb b'0' c && leb c b'9'

abbrev pub is_letter : ℕ → Bool
is_letter c = leb b'a' c && leb c b'z' || leb b'A' c && leb c b'Z'

-- What "." of a regular expression does not match: line feed, carriage return, and the two separators.
abbrev pub is_line_end : ℕ → Bool
is_line_end c = c == 10 || (c == 13 || (c == 8232 || c == 8233))

abbrev pub any : (ℕ → Bool) → List ℕ → Bool
any p [] = false
any p (c ∷ cs) = p c || any p cs

-- `passwordStrengthRegex`, "^(?=.*\\d)(?=.*[a-zA-Z]).{8,}$".
unfoldable pub is_strong : List ℕ → Bool
is_strong password =
    any is_digit password
    && (any is_letter password && (leb 8 (length password) && not (any is_line_end password)))

pub data SubmitStatus : Type 0 where
  edit sending fail success : SubmitStatus

pub data Message : Type 0 where
  weak_password missing_token password_mismatch internal_error : Message
  of_backend : String → Message

-- `awaiting` holds the arguments of the calls of `signupUser` that are awaited, and `stored` is the
-- access token in the storage.
pub record Signup : Type 0 where
  pub username : List ℕ
  pub password : List ℕ
  pub submit_status : SubmitStatus
  pub error_message : Option Message
  pub awaiting : List (List ℕ × List ℕ)
  pub stored : Option (List ℕ)

-- `onFormSubmit` up to its call.
unfoldable pub submit_signup : Signup → Signup
unfolding is_strong
submit_signup s =
    if is_strong s.password
    then record s {
      error_message = none;
      submit_status = SubmitStatus.sending;
      awaiting = (s.username, s.password) ∷ s.awaiting;
    }
    else record s { error_message = some Message.weak_password }

-- What follows the `await`, for a call that answers with a token.
unfoldable pub finish_signup : Outcome (List ℕ) → Signup → Signup
finish_signup (ok token) s = record s { stored = some token; submit_status = SubmitStatus.success }
finish_signup (backend_error e) s = record s {
  submit_status = SubmitStatus.fail;
  error_message = some (Message.of_backend e);
}
finish_signup other_error s = record s {
  submit_status = SubmitStatus.fail;
  error_message = some Message.internal_error;
}

-- `token` is the query's, and `redirected` whether the page has been left for "/".
pub record Reset : Type 0 where
  pub token : Option (List ℕ)
  pub password : List ℕ
  pub password_confirmation : List ℕ
  pub submit_status : SubmitStatus
  pub error_message : Option Message
  pub awaiting : List (List ℕ × List ℕ)

abbrev pub some_token : Option (List ℕ) → Option (List ℕ)
some_token (some (c ∷ cs)) = some (c ∷ cs)
some_token _ = none

unfoldable pub open_reset : Option (List ℕ) → Reset
open_reset token = record {
  token = token;
  password = [];
  password_confirmation = [];
  submit_status = SubmitStatus.edit;
  error_message = elim (some_token token) [ none ↦ some Message.missing_token | some t ↦ none ];
  awaiting = [];
}

abbrev pub send_reset : Option (List ℕ) → Reset → Reset
send_reset none s = record s { error_message = some Message.missing_token }
send_reset (some token) s =
    if text_eq s.password s.password_confirmation
    then record s {
      error_message = none;
      submit_status = SubmitStatus.sending;
      awaiting = (token, s.password) ∷ s.awaiting;
    }
    else record s { error_message = some Message.password_mismatch }

-- `onFormSubmit` up to its call of `resetUserPassword`.
unfoldable pub submit_reset : Reset → Reset
unfolding is_strong text_eq
submit_reset s =
    if is_strong s.password
    then send_reset (some_token s.token) s
    else record s { error_message = some Message.weak_password }

unfoldable pub finish_reset : Outcome (Unit {0}) → Reset → Reset
finish_reset (ok u) s = record s { submit_status = SubmitStatus.success }
finish_reset (backend_error e) s = record s {
  submit_status = SubmitStatus.fail;
  error_message = some (Message.of_backend e);
}
finish_reset other_error s = record s {
  submit_status = SubmitStatus.fail;
  error_message = some Message.internal_error;
}

-- `timers` holds the tokens of the timers that run.
pub record Forgot : Type 0 where
  pub username : List ℕ
  pub submit_status : SubmitStatus
  pub error_message : Option Message
  pub password_reset_token : Option (List ℕ)
  pub awaiting : List (List ℕ)
  pub timers : List (List ℕ)

unfoldable pub submit_forgot : Forgot → Forgot
submit_forgot s = record s {
  error_message = none;
  submit_status = SubmitStatus.sending;
  awaiting = s.username ∷ s.awaiting;
}

unfoldable pub finish_forgot : Outcome (List ℕ) → Forgot → Forgot
finish_forgot (ok token) s = record s {
  submit_status = SubmitStatus.success;
  timers = token ∷ s.timers;
}
finish_forgot (backend_error e) s = record s {
  submit_status = SubmitStatus.fail;
  error_message = some (Message.of_backend e);
}
finish_forgot other_error s = record s {
  submit_status = SubmitStatus.fail;
  error_message = some Message.internal_error;
}

-- The timer at `i` fires.
abbrev pub set_reset_token : Option (List ℕ) → Forgot → Forgot
set_reset_token none s = s
set_reset_token (some token) s = record s { password_reset_token = some token }

unfoldable pub fire : ℕ → Forgot → Forgot
fire i s = set_reset_token (get_elem? s.timers i) (record s { timers = erase_idx s.timers i })
