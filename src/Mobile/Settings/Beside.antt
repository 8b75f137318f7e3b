-- ===== src/Mobile/Settings/Beside.antt =====
-- The messages and the calls of mobile/src/screens/Settings.tsx.
use text.Mathlib.Text.{◌==◌ as str_eq}
use reference_wallet.Base.{
  ℕ, ◌≡◌, refl, Bool, true, false, Option, none, some, List, [], ◌∷◌, String, get_elem?,
}
use reference_wallet.Receive.{SubmitStatus}
use reference_wallet.Settings.Forms.{NewPaymentMethod}
use reference_wallet.Transfer.Machine.{Outcome, ok, backend_error, other_error}
use reference_wallet.Mobile.Settings.{
  Settings, Pending, finish, change_language, settle_at, Event, save, add, sign_out, settled,
  choose_fiat_currency, choose_language, step, run,
}

-- A message that is shown.
abbrev pub HasMessage : Settings → Type 0
HasMessage s = (message : String) × (s.error_message ≡ some message)

language-HasMessage :
    (b : Bool) (l : String) (s : Settings) → HasMessage s → HasMessage (change_language b l s)
language-HasMessage true l s h = h
language-HasMessage false l s h = h

finish-HasMessage :
    (p : Pending) (o : Outcome (Unit {0})) (s : Settings) → HasMessage s → HasMessage (finish p o s)
unfolding finish
finish-HasMessage (Pending.storing m) (ok u) s h = h
finish-HasMessage (Pending.saving l c) (ok u) s h =
    language-HasMessage (str_eq l s.selected_language) l _ h
finish-HasMessage (Pending.storing m) (backend_error e) s h = (e, refl)
finish-HasMessage (Pending.saving l c) (backend_error e) s h = (e, refl)
finish-HasMessage (Pending.storing m) other_error s h = ("Internal Error", refl)
finish-HasMessage (Pending.saving l c) other_error s h = ("Internal Error", refl)

settle-HasMessage :
    (p : Option Pending) (i : ℕ) (o : Outcome (Unit {0})) (s : Settings)
    → HasMessage s
    → HasMessage (settle_at p i o s)
unfolding settle_at
settle-HasMessage none i o s h = h
settle-HasMessage (some p) i o s h = finish-HasMessage p o _ h

step-HasMessage : (s : Settings) (e : Event) → HasMessage s → HasMessage (step s e)
unfolding step
step-HasMessage s (choose_fiat_currency c) h = h
step-HasMessage s (choose_language l) h = h
step-HasMessage s save h = h
step-HasMessage s (add m) h = h
step-HasMessage s sign_out h = h
step-HasMessage s (settled i o) h = settle-HasMessage (get_elem? s.pending i) i o s h

run-HasMessage : (s : Settings) (es : List Event) → HasMessage s → HasMessage (run s es)
unfolding run
run-HasMessage s [] h = h
run-HasMessage s (e ∷ es) h = run-HasMessage (step s e) es (step-HasMessage s e h)

-- Once a message of an error is shown, some message of an error is shown whatever happens; a payment method
-- that is added and stored after that comes with the status "success" and an error beside it.
error_beside_success :
    (s : Settings) (es : List Event) (m : NewPaymentMethod)
    → HasMessage s
    → let t = run s es in
      let u = run t (add m ∷ settled 0 (ok tt) ∷ []) in
      HasMessage t
      × HasMessage u
      × (u.submit_status ≡ SubmitStatus.success)
      × (u.stored ≡ m ∷ t.stored)
unfolding run
error_beside_success s es m h = let t = run-HasMessage s es h in (t, t, refl, refl)
