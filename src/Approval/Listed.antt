-- ===== src/Approval/Listed.antt =====
-- The list of frontend/src/components/FundsPullPreApproval/FundsPullPreApprovalsList.tsx with the rows of
-- FundsPullPreApproval.tsx and its three dialogs, which stay mounted and share the approval that they are
-- about. A dialog that is open covers the rows.
pub mod Clicked
pub mod Late
mod Tests
use reference_wallet.Base.{
  ℕ, Bool, true, false, not, ◌&&◌, Option, none, some, List, [], ◌∷◌, String, if◌then◌else◌,
}
use reference_wallet.Approval.{Dialog, Event, mount, shows_button, step}
use reference_wallet.Approval.Sections.{Approval}

-- The three dialogs.
pub data Choice : Type 0 where
  approve reject revoke : Choice

-- The status that a dialog sends.
abbrev pub status_of : Choice → String
status_of Choice.approve = "valid"
status_of Choice.reject = "rejected"
status_of Choice.revoke = "closed"

pub record ApprovalsListProps : Type 0 where
  pub disable_approve_reject_buttons : Bool
  pub disable_revoke_button : Bool

-- The buttons of a row.
abbrev pub offers : ApprovalsListProps → Choice → Bool
offers p Choice.approve = not p.disable_approve_reject_buttons
offers p Choice.reject = not p.disable_approve_reject_buttons
offers p Choice.revoke = not p.disable_revoke_button

-- `clicked` and `asked` are the histories of the clicks in the rows and of the calls of
-- `updateApprovalStatus`, each with the id of its approval and the status that it stands for.
pub record Listed : Type 0 where
  pub approval_in_modal : Option Approval
  pub approve_modal_open : Bool
  pub reject_modal_open : Bool
  pub revoke_modal_open : Bool
  pub approve_modal : Dialog
  pub reject_modal : Dialog
  pub revoke_modal : Dialog
  pub clicked : List (String × String)
  pub asked : List (String × String)

unfoldable pub opened : Listed
unfolding mount
opened = record {
  approval_in_modal = none;
  approve_modal_open = false;
  reject_modal_open = false;
  revoke_modal_open = false;
  approve_modal = mount;
  reject_modal = mount;
  revoke_modal = mount;
  clicked = [];
  asked = [];
}

abbrev pub is_open : Choice → Listed → Bool
is_open Choice.approve s = s.approve_modal_open
is_open Choice.reject s = s.reject_modal_open
is_open Choice.revoke s = s.revoke_modal_open

abbrev pub set_open : Choice → Bool → Listed → Listed
set_open Choice.approve shown s = record s { approve_modal_open = shown }
set_open Choice.reject shown s = record s { reject_modal_open = shown }
set_open Choice.revoke shown s = record s { revoke_modal_open = shown }

abbrev pub modal_of : Choice → Listed → Dialog
modal_of Choice.approve s = s.approve_modal
modal_of Choice.reject s = s.reject_modal
modal_of Choice.revoke s = s.revoke_modal

abbrev pub set_modal : Choice → Dialog → Listed → Listed
set_modal Choice.approve d s = record s { approve_modal = d }
set_modal Choice.reject d s = record s { reject_modal = d }
set_modal Choice.revoke d s = record s { revoke_modal = d }

abbrev pub are_all_closed : Listed → Bool
are_all_closed s = not s.approve_modal_open && (not s.reject_modal_open && not s.revoke_modal_open)

-- `onApproveClick`, `onRejectClick` and `onRevokeClick` of a row.
unfoldable pub open_modal : Choice → Approval → Listed → Listed
open_modal c a s = record (set_open c true s) {
  approval_in_modal = some a;
  clicked = (a.funds_pull_pre_approval_id, status_of c) ∷ s.clicked;
}

-- An event of a row, or of a dialog.
pub data ListEvent : Type 0 where
  click : Choice → Approval → ListEvent
  inside : Choice → Event → ListEvent

module _ (internal_error : String) where
  -- An event of a dialog, as the dialog itself handles it.
  abbrev pub pass_on : Choice → Event → Listed → Listed
  pass_on c e s = set_modal c (step internal_error (status_of c) (modal_of c s) e) s

  -- The button of a dialog calls `updateApprovalStatus` for the approval that the dialogs are about.
  unfoldable pub press_in : Choice → Option Approval → Listed → Listed
  unfolding step
  press_in c none s = s
  press_in c (some a) s = record (pass_on c Event.press s) {
    asked = (a.funds_pull_pre_approval_id, status_of c) ∷ s.asked;
  }

  unfoldable pub handle : Choice → Event → Listed → Listed
  unfolding press_in
  handle c Event.press s =
      if is_open c s && shows_button (modal_of c s) then press_in c s.approval_in_modal s else s
  handle c Event.close s = if is_open c s then set_open c false (pass_on c Event.close s) else s
  handle c (Event.settled i o) s = pass_on c (Event.settled i o) s

  unfoldable pub list_step : ApprovalsListProps → Listed → ListEvent → Listed
  unfolding open_modal handle
  list_step p s (click c a) = if are_all_closed s && offers p c then open_modal c a s else s
  list_step p s (inside c e) = handle c e s

  unfoldable pub list_run : ApprovalsListProps → Listed → List ListEvent → Listed
  unfolding list_step
  list_run p s [] = s
  list_run p s (e ∷ es) = list_run p (list_step p s e) es
