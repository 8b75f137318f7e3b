-- ===== src/Approval.antt =====
-- The dialogs of frontend/src/components/FundsPullPreApproval that approve, reject and revoke a
-- pre-approval: ApproveModal.tsx, RejectModal.tsx and RevokeModal.tsx, which differ in the status that
-- they send and in texts.
pub mod Runs
pub mod Listed
pub mod Details
pub mod Sections
mod Tests
use reference_wallet.Base.{
  ℕ, Bool, true, false, not, Option, none, some, List, [], ◌∷◌, String, if◌then◌else◌, get_elem?,
  erase_idx,
}
use reference_wallet.Transfer.Machine.{Outcome, ok, backend_error, other_error}

pub data SubmitStatus : Type 0 where
  edit fail success : SubmitStatus

-- The promises of `updateApprovalStatus` and of `refreshUser`.
pub data Pending : Type 0 where
  updating refreshing : Pending

-- `asked` and `applied` are the histories of the statuses that the dialog sent, and of those that
-- the backend carried out.
pub record Dialog : Type 0 where
  pub submit_status : SubmitStatus
  pub error_message : Option String
  pub in_flight : List Pending
  pub asked : List String
  pub applied : List String

unfoldable pub mount : Dialog
mount = record {
  submit_status = SubmitStatus.edit;
  error_message = none;
  in_flight = [];
  asked = [];
  applied = [];
}

abbrev pub is_success : SubmitStatus → Bool
is_success SubmitStatus.success = true
is_success _ = false

-- The button stands there unless the update has succeeded.
abbrev pub shows_button : Dialog → Bool
shows_button d = not (is_success d.submit_status)

-- `updateApproval` up to its first `await`.
unfoldable pub update_approval : String → Dialog → Dialog
update_approval status d = record d {
  error_message = none;
  submit_status = SubmitStatus.edit;
  in_flight = Pending.updating ∷ d.in_flight;
  asked = status ∷ d.asked;
}

-- The `catch` of `updateApproval`.
abbrev pub with_failure : String → Dialog → Dialog
with_failure message d = record d {
  submit_status = SubmitStatus.fail;
  error_message = some message;
}

unfoldable pub on_modal_close : Dialog → Dialog
on_modal_close d = record d { submit_status = SubmitStatus.edit; error_message = none }

-- What follows the two awaits. `internal_error` is the text of the locale.
module _ (internal_error : String) where
  unfoldable pub updated : String → Outcome (Unit {0}) → Dialog → Dialog
  updated status (ok _) d = record d {
    submit_status = SubmitStatus.success;
    in_flight = Pending.refreshing ∷ d.in_flight;
    applied = status ∷ d.applied;
  }
  updated status (backend_error message) d = with_failure message d
  updated status other_error d = with_failure internal_error d

  unfoldable pub refreshed : Outcome (Unit {0}) → Dialog → Dialog
  refreshed (ok _) d = d
  refreshed (backend_error message) d = with_failure message d
  refreshed other_error d = with_failure internal_error d

  unfoldable pub settle : String → Option Pending → ℕ → Outcome (Unit {0}) → Dialog → Dialog
  unfolding updated refreshed
  settle status none i o d = d
  settle status (some Pending.updating) i o d =
      updated status o (record d { in_flight = erase_idx d.in_flight i })
  settle status (some Pending.refreshing) i o d =
      refreshed o (record d { in_flight = erase_idx d.in_flight i })

pub data Event : Type 0 where
  press close : Event
  settled : ℕ → Outcome (Unit {0}) → Event

module _ (internal_error : String) where
  -- An event that the dialog does not offer changes nothing.
  unfoldable pub step : String → Dialog → Event → Dialog
  unfolding update_approval on_modal_close settle
  step status d Event.press = if shows_button d then update_approval status d else d
  step status d Event.close = on_modal_close d
  step status d (Event.settled i o) = settle internal_error status (get_elem? d.in_flight i) i o d

  unfoldable pub approve_modal : Dialog → Event → Dialog
  unfolding step
  approve_modal = step "valid"

  unfoldable pub reject_modal : Dialog → Event → Dialog
  unfolding step
  reject_modal = step "rejected"

  unfoldable pub revoke_modal : Dialog → Event → Dialog
  unfolding step
  revoke_modal = step "closed"
