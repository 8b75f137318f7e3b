-- ===== src/Mobile/Auth.antt =====
-- The forms of mobile/src/screens/SignIn.tsx, SignUp.tsx, ForgotPassword.tsx and ResetPassword.tsx, with
-- the statuses, messages and texts of Auth.antt. What a form collects is an argument of its handler.
pub mod Same
use reference_wallet.Base.{
  ℕ, Bool, true, false, Option, none, some, List, [], ◌∷◌, if◌then◌else◌, get_elem?, erase_idx,
}
use reference_wallet.Send.Intents.{text_eq}
use reference_wallet.Transfer.Machine.{Outcome, ok, backend_error, other_error}
use reference_wallet.Auth.{SubmitStatus, Message, is_strong}

-- `awaiting` holds the arguments of the calls that are awaited, and `stored` is the access token in the
-- storage.
pub record Screen : Type 0 where
  pub submit_status : SubmitStatus
  pub error_message : Option Message
  pub awaiting : List (List ℕ × List ℕ)
  pub stored : Option (List ℕ)

abbrev pub send : List ℕ × List ℕ → Screen → Screen
send call s = record s {
  error_message = none;
  submit_status = SubmitStatus.sending;
  awaiting = call ∷ s.awaiting;
}

abbrev pub fail : Message → Screen → Screen
fail message s = record s { submit_status = SubmitStatus.fail; error_message = some message }

unfoldable pub submit_sign_in : List ℕ → List ℕ → Screen → Screen
submit_sign_in username password s = send (username, password) s

unfoldable pub finish_sign_in : Outcome (List ℕ) → Screen → Screen
finish_sign_in (ok token) s = record s { stored = some token; submit_status = SubmitStatus.success }
finish_sign_in (backend_error e) s = fail (Message.of_backend e) s
finish_sign_in other_error s = fail Message.internal_error s

unfoldable pub submit_sign_up : List ℕ → List ℕ → Screen → Screen
unfolding is_strong
submit_sign_up username password s =
    if is_strong password
    then send (username, password) s
    else record s { error_message = some Message.weak_password }

unfoldable pub finish_sign_up : Outcome (List ℕ) → Screen → Screen
finish_sign_up (ok token) s = record s { stored = some token; submit_status = SubmitStatus.success }
finish_sign_up (backend_error e) s = fail (Message.of_backend e) s
finish_sign_up other_error s = fail Message.internal_error s

-- `redirectLoggedIn` leaves the screen for "Home".
unfoldable pub redirects : Screen → Bool
redirects s = elim (s.stored) [ none ↦ false | some t ↦ is_text t ]
  where
    is_text : List ℕ → Bool
    is_text [] = false
    is_text (c ∷ cs) = true

unfoldable pub submit_reset : List ℕ → List ℕ → List ℕ → Screen → Screen
unfolding is_strong text_eq
submit_reset token new_password confirm_password s =
    if is_strong new_password
    then (if text_eq new_password confirm_password
        then send (token, new_password) s
        else record s { error_message = some Message.password_mismatch })
    else record s { error_message = some Message.weak_password }

unfoldable pub finish_reset : Outcome (Unit {0}) → Screen → Screen
finish_reset (ok u) s = record s { submit_status = SubmitStatus.success }
finish_reset (backend_error e) s = fail (Message.of_backend e) s
finish_reset other_error s = fail Message.internal_error s

-- The screen for a forgotten password; `timers` holds the tokens of the timers that run, and `pushed`
-- those with which "ResetPassword" has been pushed, latest first.
pub record Forgot : Type 0 where
  pub submit_status : SubmitStatus
  pub error_message : Option Message
  pub awaiting : List (List ℕ)
  pub timers : List (List ℕ)
  pub pushed : List (List ℕ)

unfoldable pub submit_forgot : List ℕ → Forgot → Forgot
submit_forgot username s = record s {
  error_message = none;
  submit_status = SubmitStatus.sending;
  awaiting = username ∷ s.awaiting;
}

unfoldable pub finish_forgot : Outcome (List ℕ) → Forgot → Forgot
finish_forgot (ok token) s = record s {
  submit_status = SubmitStatus.success;
  timers = token ∷ s.timers;
}
finish_forgot (backend_error e) s = record s {
  submit_status = SubmitStatus.fail;
  error_message = some (Message.of_backend e);
}
finish_forgot other_error s = record s {
  submit_status = SubmitStatus.fail;
  error_message = some Message.internal_error;
}

abbrev pub push_reset : Option (List ℕ) → Forgot → Forgot
push_reset none s = s
push_reset (some token) s = record s { pushed = token ∷ s.pushed }

-- The timer at `i` fires.
unfoldable pub fire : ℕ → Forgot → Forgot
fire i s = push_reset (get_elem? s.timers i) (record s { timers = erase_idx s.timers i })
