-- ===== src/Admin/Tests.antt =====
-- Runs of the page.
use reference_wallet.Base.{codes, ℕ, true, false, ◌≡◌, refl, [], ◌∷◌}
use reference_wallet.Admin.{
  AdminFormData, Pending, accepts, Admins, done, listed, open_form, submit, settled, step, mount,
}

abbrev ann : AdminFormData
ann = record {
  first_name = codes "Ann";
  last_name = codes "Lee";
  username = codes "ann";
  password = codes "abc12345";
  password_confirmation = codes "abc12345";
}

ann_accepted : accepts ann ≡ true
unfolding accepts
ann_accepted = refl

unconfirmed : accepts (record ann { password_confirmation = [] }) ≡ false
unfolding accepts
unconfirmed = refl

-- The form is submitted after the first list has arrived.
abbrev waiting : Admins ℕ
waiting = step (step (step mount (settled 0 (listed (1 ∷ [])))) open_form) (submit ann)

waiting_sends : waiting.pending ≡ Pending.creating ann ∷ []
unfolding step mount
waiting_sends = refl

created_shown :
    (step (step waiting (settled 0 done)) (settled 0 (listed (1 ∷ 2 ∷ [])))).users ≡ 1 ∷ 2 ∷ []
unfolding step mount
created_shown = refl
