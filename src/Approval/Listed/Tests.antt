-- ===== src/Approval/Listed/Tests.antt =====
-- A list of two approvals.
use mathlib.Core.List.{Mem}
use reference_wallet.Base.{◌≡◌, refl, true, false, some, [], ◌∷◌, All}
use reference_wallet.Approval.{SubmitStatus, Event, shows_button}
use reference_wallet.Approval.Sections.{ApprovalStatus, Approval}
use reference_wallet.Approval.Listed.{
  Choice, ApprovalsListProps, opened, is_open, modal_of, click, inside, list_run,
}
use reference_wallet.Approval.Listed.Clicked.{asked-IsClicked}
use reference_wallet.Approval.Listed.Late.{late, late_reply_misleads}

abbrev first : Approval
first = record {
  funds_pull_pre_approval_id = "a1";
  status = ApprovalStatus.pending;
  expiration_timestamp = 9;
}

abbrev second : Approval
second = record first { funds_pull_pre_approval_id = "b2" }

abbrev props : ApprovalsListProps
props = record { disable_approve_reject_buttons = false; disable_revoke_button = true }

-- A row that is covered by a dialog cannot be clicked.
covered_row :
    (list_run "Internal Error" props opened (
      click Choice.approve first
      ∷ click Choice.reject second
      ∷ inside Choice.approve Event.press
      ∷ [])).asked
    ≡ ("a1", "valid") ∷ []
unfolding list_run opened
covered_row = refl

asked-IsClicked_example :
    let s = list_run "Internal Error" props opened (late Choice.reject first second) in
    All (λ x. Mem x s.clicked) s.asked
asked-IsClicked_example = asked-IsClicked "Internal Error" props (late Choice.reject first second)

late_reply_misleads_example :
    let s = list_run "Internal Error" props opened (late Choice.approve first second) in
    (s.approval_in_modal ≡ some second)
    × (is_open Choice.approve s ≡ true)
    × ((modal_of Choice.approve s).submit_status ≡ SubmitStatus.success)
    × (shows_button (modal_of Choice.approve s) ≡ false)
    × (s.asked ≡ ("a1", "valid") ∷ [])
late_reply_misleads_example =
    late_reply_misleads "Internal Error" props Choice.approve first second refl
