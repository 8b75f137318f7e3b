-- ===== src/Admin/Unseen.antt =====
-- New administrators that the page does not show.
use reference_wallet.Base.{true, ◌≡◌, refl, false, some, List, ◌∷◌}
use reference_wallet.Admin.{
  NewAdminStatus, AdminFormData, accepts, Pending, unexpected_error, Admins, listed, done, thrown,
  submit, settled, step,
}

module _ {U : Type 0} (s : Admins U) (form : AdminFormData) (rest : List Pending)
    (sent : s.pending ≡ Pending.creating form ∷ rest) where
  -- When the backend has created an administrator and the list that is fetched afterwards fails, the
  -- form says that there was an unexpected error, the list stays the old one, and submitting the same
  -- data again, which the rules accept, asks to create the same administrator once more.
  creation_unseen :
      accepts form ≡ true
      → let failed = step (step s (settled 0 done)) (settled 0 thrown) in
        (failed.status ≡ NewAdminStatus.failed)
        × (failed.error ≡ some unexpected_error)
        × (failed.users ≡ s.users)
        × (failed.created ≡ form ∷ s.created)
        × ((step failed (submit form)).pending ≡ s.pending)
  unfolding step
  creation_unseen a = rw (sent, a) (refl, refl, refl, refl, refl)

  -- When the first list of the page arrives after the list that followed the creation of an
  -- administrator, the page shows the first list.
  pub first_list_prevails :
      (old new : List U) (others : List Pending)
      → rest ≡ Pending.first_list ∷ others
      → s.is_outdated ≡ false
      → let shown =
          step (step (step s (settled 0 done)) (settled 0 (listed new))) (settled 0 (listed old)) in
        (shown.created ≡ form ∷ s.created) × (shown.users ≡ old)
  unfolding step
  first_list_prevails old new others waits mounted = rw (sent, waits, mounted) (refl, refl)
