-- ===== src/Approval/Runs.antt =====
-- Runs of the dialogs of frontend/src/components/FundsPullPreApproval.
use reference_wallet.Base.{
  ℕ, ◌≡◌, ◌≢◌, inl, inr, refl, Option, none, some, List, [], ◌∷◌, String, All, get_elem?,
  Bool-cases,
}
use reference_wallet.Transfer.Machine.{Outcome, ok, backend_error, other_error}
use reference_wallet.Approval.{
  SubmitStatus, Pending, Dialog, mount, shows_button, update_approval, on_modal_close, updated,
  refreshed, settle, Event, step,
}

-- What was carried out is the dialog's status each time, and there is one if the dialog says so.
record IsHonest (status : String) (d : Dialog) : Type 0 where
  carried_out : d.submit_status ≡ SubmitStatus.success → d.applied ≢ []
  only : All (λ s. s ≡ status) d.applied

module _ (internal_error status : String) where
  pub data Reach : Dialog → Type 0 where
    mounted : Reach mount
    next : {d : Dialog} (e : Event) → Reach d → Reach (step internal_error status d e)

  settle-IsHonest :
      (c : Option Pending) (i : ℕ) (o : Outcome (Unit {0})) (d : Dialog)
      → IsHonest status d
      → IsHonest status (settle internal_error status c i o d)
  unfolding settle updated refreshed
  settle-IsHonest none i o d h = h
  settle-IsHonest (some Pending.updating) i (ok u) d h = record {
    carried_out = λ e p. cc;
    only = (refl, h.only);
  }
  settle-IsHonest (some Pending.updating) i (backend_error m) d h = record {
    carried_out = λ e. absurd (cc);
    only = h.only;
  }
  settle-IsHonest (some Pending.updating) i other_error d h = record {
    carried_out = λ e. absurd (cc);
    only = h.only;
  }
  settle-IsHonest (some Pending.refreshing) i (ok u) d h = record {
    carried_out = h.carried_out;
    only = h.only;
  }
  settle-IsHonest (some Pending.refreshing) i (backend_error m) d h = record {
    carried_out = λ e. absurd (cc);
    only = h.only;
  }
  settle-IsHonest (some Pending.refreshing) i other_error d h = record {
    carried_out = λ e. absurd (cc);
    only = h.only;
  }

  step-IsHonest :
      (d : Dialog) (e : Event)
      → IsHonest status d
      → IsHonest status (step internal_error status d e)
  unfolding step update_approval on_modal_close
  step-IsHonest d Event.press h = elim (Bool-cases (shows_button d)) [
    | inl on ↦ rw on (record { carried_out = λ e. absurd (cc); only = h.only })
    | inr off ↦ rw off h
  ]
  step-IsHonest d Event.close h = record { carried_out = λ e. absurd (cc); only = h.only }
  step-IsHonest d (Event.settled i o) h = settle-IsHonest (get_elem? d.in_flight i) i o d h

  Reach-IsHonest : {d : Dialog} → Reach d → IsHonest status d
  unfolding mount
  Reach-IsHonest mounted = record { carried_out = λ e. absurd (cc); only = tt }
  Reach-IsHonest (next {d} e r) = step-IsHonest d e (Reach-IsHonest r)

  -- In every run, a dialog that says that its update succeeded has had one carried out by the backend,
  -- and everything carried out for it was the status of this dialog.
  pub success-applied :
      {d : Dialog}
      → Reach d
      → d.submit_status ≡ SubmitStatus.success
      → (d.applied ≢ []) × All (λ s. s ≡ status) d.applied
  success-applied r h = ((Reach-IsHonest r).carried_out h, (Reach-IsHonest r).only)

  -- When the backend carries out the update but the refresh of the user fails afterwards, the dialog
  -- says that the update failed, and its button asks for the update once more.
  failed_refresh_updates_again :
      (d : Dialog) (rest : List Pending) (message : String)
      → d.in_flight ≡ Pending.updating ∷ rest
      → let s = step internal_error status in
        let failed = s (s d (Event.settled 0 (ok tt))) (Event.settled 0 (backend_error message)) in
        (failed.applied ≡ status ∷ d.applied)
        × (failed.submit_status ≡ SubmitStatus.fail)
        × (failed.error_message ≡ some message)
        × ((s failed Event.press).asked ≡ status ∷ d.asked)
  unfolding step settle updated refreshed update_approval
  failed_refresh_updates_again d rest message e = rw e (refl, refl, refl, refl)
