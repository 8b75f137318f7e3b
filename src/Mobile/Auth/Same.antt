-- ===== src/Mobile/Auth/Same.antt =====
-- The mobile forms for a new account and a new password do what the web forms do.
use reference_wallet.Base.{ℕ, ◌≡◌, inl, inr, refl, none, some, List, ◌∷◌, Bool-cases}
use reference_wallet.Send.Intents.{text_eq}
use reference_wallet.Transfer.Machine.{Outcome, ok, backend_error, other_error}
use reference_wallet.Auth.{Signup, Reset, is_strong, submit_signup, finish_signup}
use reference_wallet.Auth
use reference_wallet.Mobile.Auth.{
  Screen, submit_sign_up, finish_sign_up, submit_reset, finish_reset,
}

-- What a web form keeps beside the texts that are typed.
abbrev pub of_signup : Signup → Screen
of_signup s = record {
  submit_status = s.submit_status;
  error_message = s.error_message;
  awaiting = s.awaiting;
  stored = s.stored;
}

abbrev pub of_reset : Reset → Screen
of_reset s = record {
  submit_status = s.submit_status;
  error_message = s.error_message;
  awaiting = s.awaiting;
  stored = none;
}

signup-submits :
    (s : Signup) → of_signup (submit_signup s) ≡ submit_sign_up s.username s.password (of_signup s)
unfolding submit_signup submit_sign_up
signup-submits s = elim (Bool-cases (is_strong s.password)) [
  | inl strong ↦ rw strong refl
  | inr weak ↦ rw weak refl
]

signup-ends :
    (o : Outcome (List ℕ)) (s : Signup)
    → of_signup (finish_signup o s) ≡ finish_sign_up o (of_signup s)
unfolding finish_signup finish_sign_up
signup-ends (ok token) s = refl
signup-ends (backend_error e) s = refl
signup-ends other_error s = refl

reset-submits :
    (s : Reset) (c : ℕ) (cs : List ℕ)
    → s.token ≡ some (c ∷ cs)
    → of_reset (Auth.submit_reset s)
      ≡ submit_reset (c ∷ cs) s.password s.password_confirmation (of_reset s)
unfolding Auth.submit_reset submit_reset
reset-submits s c cs e = elim (Bool-cases (is_strong s.password)) [
  | inl strong ↦ elim (Bool-cases (text_eq s.password s.password_confirmation)) [
    | inl same ↦ rw (strong, e, same) refl
    | inr other ↦ rw (strong, e, other) refl
  ]
  | inr weak ↦ rw weak refl
]

reset-ends :
    (o : Outcome (Unit {0})) (s : Reset)
    → of_reset (Auth.finish_reset o s) ≡ finish_reset o (of_reset s)
unfolding Auth.finish_reset finish_reset
reset-ends (ok u) s = refl
reset-ends (backend_error e) s = refl
reset-ends other_error s = refl

-- On a token that is not empty, the web and the mobile form for a new password make the same calls and
-- go to the same status with the same message, when they are submitted and when the call ends; and so
-- do the forms for a new account.
forms_agree :
    (up : Signup) (reset : Reset) (c : ℕ) (cs : List ℕ) (o : Outcome (List ℕ))
    (p : Outcome (Unit {0}))
    → reset.token ≡ some (c ∷ cs)
    → (of_signup (submit_signup up) ≡ submit_sign_up up.username up.password (of_signup up))
      × (of_signup (finish_signup o up) ≡ finish_sign_up o (of_signup up))
      × (of_reset (Auth.submit_reset reset)
          ≡ submit_reset (c ∷ cs) reset.password reset.password_confirmation (of_reset reset))
      × (of_reset (Auth.finish_reset p reset) ≡ finish_reset p (of_reset reset))
forms_agree up reset c cs o p e =
    (signup-submits up, signup-ends o up, reset-submits reset c cs e, reset-ends p reset)
