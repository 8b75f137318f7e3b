-- ===== src/Settings/Runs.antt =====
-- Runs of the page.
use reference_wallet.Base.{ℕ, suc, ◌≡◌, refl, false, none, some, [], ◌∷◌, String, arith}
use reference_wallet.Backend.Http.{get_access_token, join}
use reference_wallet.Session.{redirect, logged_in_route}
use reference_wallet.Settings.Forms.{NewPaymentMethod}
use reference_wallet.Settings.{
  FormStages, Pending, Settings, Ending, done, refused, store, sign_out, settled, timer, step,
}

module _ {M : Type 0} (s : Settings M) where
  -- However the call to sign out ends, the token is gone, and the pages for users send to the sign-in.
  signed_out :
      (e : Ending M) (query_string : String)
      → let left = step (step s sign_out) (settled 0 e) in
        (left.is_signed_in ≡ false)
        × (get_access_token left.storage ≡ none)
        × (logged_in_route left.storage query_string
            ≡ redirect (join ("/login" ∷ query_string ∷ [])))
  unfolding step get_access_token logged_in_route
  signed_out e query_string = (refl, refl, refl)

  -- When a payment method is stored and the list that is fetched afterwards is refused, the page shows
  -- its success and the error side by side.
  success_beside_error :
      (method : NewPaymentMethod) (message : String)
      → let shown =
          step (step (step s (store method)) (settled 0 done)) (settled 0 (refused message)) in
        (shown.form_stage ≡ FormStages.success)
        × (shown.error_message ≡ some message)
        × (shown.payment_methods ≡ s.payment_methods)
  unfolding step
  success_beside_error method message = (refl, refl, refl)

  -- A timer that an earlier success has started takes the page back to its stage "edit" while another
  -- payment method is being stored.
  early_timer :
      (method : NewPaymentMethod) (n : ℕ)
      → s.timers ≡ suc n
      → let fired = step (step s (store method)) timer in
        (fired.form_stage ≡ FormStages.edit) × (fired.pending ≡ Pending.storing method ∷ s.pending)
  unfolding step
  early_timer method n running = rw running (ground arith, ground arith)
