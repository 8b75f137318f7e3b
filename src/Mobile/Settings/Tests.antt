-- ===== src/Mobile/Settings/Tests.antt =====
-- A run of mobile/src/screens/Settings.tsx.
use reference_wallet.Base.{◌≡◌, refl, some, [], ◌∷◌}
use reference_wallet.Transfer.Machine.{ok, backend_error}
use reference_wallet.Mobile.Contexts.{Root}
use reference_wallet.Mobile.Settings.{
  Settings, mount, choose_language, save, sign_out, settled, run,
}
use reference_wallet.Mobile.Settings.Beside.{HasMessage}

abbrev opened : Settings
opened = mount "EUR" "en" "en" (record { token = some "t" })

spanish :
    (run opened (choose_language "es" ∷ save ∷ settled 0 (ok tt) ∷ sign_out ∷ [])).roots
    ≡ Root.sign_in ∷ Root.home ∷ []
unfolding run mount
spanish = refl

abbrev failed : Settings
failed = run opened (save ∷ settled 0 (backend_error "no") ∷ [])

failed-HasMessage : HasMessage failed
unfolding run mount
failed-HasMessage = ("no", refl)
