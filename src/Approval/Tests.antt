-- ===== src/Approval/Tests.antt =====
-- A dialog that approves, at concrete events.
use reference_wallet.Base.{ℕ, List, ◌≡◌, ◌≢◌, refl, [], ◌∷◌, All}
use reference_wallet.Transfer.Machine.{ok}
use reference_wallet.Approval.Sections.{ApprovalStatus, Approval, sort_approvals, no_approvals}
use reference_wallet.Approval.Sections.Selected.{
  new_of, active_of, history_of, sort_approvals-selects,
}
use reference_wallet.Approval.{SubmitStatus, Pending, Dialog, mount, Event, step}
use reference_wallet.Approval.Runs.{Reach, success-applied}

abbrev pressed : Dialog
pressed = step "Internal Error" "valid" mount Event.press

abbrev approved : Dialog
approved = step "Internal Error" "valid" pressed (Event.settled 0 (ok tt))

approved_status : approved.submit_status ≡ SubmitStatus.success
unfolding step mount
approved_status = refl

success-applied_example : (approved.applied ≢ []) × All (λ s. s ≡ "valid") approved.applied
success-applied_example =
    success-applied "Internal Error" "valid"
      (Reach.next (Event.settled 0 (ok tt)) (Reach.next Event.press Reach.mounted)) approved_status

pressed_flight : pressed.in_flight ≡ Pending.updating ∷ []
unfolding step mount
pressed_flight = refl

abbrev approval : ApprovalStatus → ℕ → Approval
approval status time = record {
  funds_pull_pre_approval_id = "a";
  status = status;
  expiration_timestamp = time;
}

abbrev approvals : List Approval
approvals =
    approval ApprovalStatus.valid 1
    ∷ approval ApprovalStatus.pending 1
    ∷ approval ApprovalStatus.valid 9
    ∷ approval ApprovalStatus.closed 9
    ∷ []

sort_approvals-selects_example :
    let t = sort_approvals 5000 approvals no_approvals in
    (t.new_approvals ≡ new_of approvals)
    × (t.active_approvals ≡ active_of 5000 approvals)
    × (t.history_approvals ≡ history_of 5000 approvals)
sort_approvals-selects_example = sort_approvals-selects 5000 approvals

expired_in_history :
    (sort_approvals 5000 approvals no_approvals).history_approvals
    ≡ approval ApprovalStatus.valid 1 ∷ approval ApprovalStatus.closed 9 ∷ []
unfolding sort_approvals
expired_in_history = refl
