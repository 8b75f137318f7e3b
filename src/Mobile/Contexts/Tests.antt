-- ===== src/Mobile/Contexts/Tests.antt =====
-- Loads of the providers of mobile/src/contexts.
use reference_wallet.Base.{ℕ, ◌≡◌, refl, Option, none, some, [], ◌∷◌}
use reference_wallet.Backend.Http.{LocalStorage, backend_error, ok, err}
use reference_wallet.Mobile.Contexts.{
  Root, Provider, mount, token_read, settled, timer, run, keep, user_step, catch_user,
  catch_quietly, launch_root,
}
use reference_wallet.Mobile.Contexts.Ends.{HasEnded, failed_load_last}

abbrev stored : LocalStorage
stored = record { token = some "t" }

abbrev asked : Provider (Option ℕ)
asked = user_step (mount none stored) token_read

loaded : (user_step (user_step (user_step asked (settled (ok 7))) timer) token_read).requests ≡ 2
unfolding user_step mount
loaded = refl

signed_out :
    launch_root (user_step asked (settled (err (backend_error "no" 401)))).storage ≡ Root.sign_in
unfolding user_step mount launch_root
signed_out = refl

failed_load_last_example :
    HasEnded asked
      (run keep catch_user asked (settled (err (backend_error "no" 500)) ∷ timer ∷ token_read ∷ []))
    × HasEnded asked (
        run keep catch_quietly asked
          (settled (err (backend_error "no" 500)) ∷ timer ∷ token_read ∷ []))
unfolding user_step mount
failed_load_last_example =
    failed_load_last keep asked (backend_error "no" 500) (timer ∷ token_read ∷ []) refl
