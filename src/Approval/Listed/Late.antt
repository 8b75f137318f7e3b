-- ===== src/Approval/Listed/Late.antt =====
-- A reply that comes when the dialog is about another approval.
use reference_wallet.Base.{◌≡◌, refl, true, false, some, List, [], ◌∷◌, String}
use reference_wallet.Approval.{SubmitStatus, Event, shows_button}
use reference_wallet.Approval.Sections.{Approval}
use reference_wallet.Approval.Listed.{
  Choice, status_of, ApprovalsListProps, offers, opened, is_open, modal_of, ListEvent, click,
  inside, list_run,
}
use reference_wallet.Transfer.Machine.{ok}

-- The button for one approval is clicked and the dialog confirmed and closed, and the button for another
-- is clicked before the reply comes.
abbrev pub late : Choice → Approval → Approval → List ListEvent
late c a b =
    click c a
    ∷ inside c Event.press
    ∷ inside c Event.close
    ∷ click c b
    ∷ inside c (Event.settled 0 (ok tt))
    ∷ []

-- When a dialog is closed before its reply comes and opened for another approval, the reply makes it say
-- that it has succeeded for that other one, for which nothing was asked, and takes its button away.
pub late_reply_misleads :
    (internal_error : String) (p : ApprovalsListProps) (c : Choice) (a b : Approval)
    → offers p c ≡ true
    → let s = list_run internal_error p opened (late c a b) in
      (s.approval_in_modal ≡ some b)
      × (is_open c s ≡ true)
      × ((modal_of c s).submit_status ≡ SubmitStatus.success)
      × (shows_button (modal_of c s) ≡ false)
      × (s.asked ≡ (a.funds_pull_pre_approval_id, status_of c) ∷ [])
unfolding list_run opened
late_reply_misleads internal_error p Choice.approve a b offered =
    rw offered (refl, refl, refl, refl, refl)
late_reply_misleads internal_error p Choice.reject a b offered =
    rw offered (refl, refl, refl, refl, refl)
late_reply_misleads internal_error p Choice.revoke a b offered =
    rw offered (refl, refl, refl, refl, refl)
