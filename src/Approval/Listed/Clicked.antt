-- ===== src/Approval/Listed/Clicked.antt =====
-- What the dialogs of a list ask the backend for.
use mathlib.Core.List.{Mem, mem-cons_self, mem-cons_of_mem}
use reference_wallet.Base.{
  ◌≡◌, refl, Bool, true, false, Option, none, some, List, [], ◌∷◌, String, Bool-cases, inl, inr,
  All, All-imp, arith, subst, sym, ◌∙◌,
}
use reference_wallet.Approval.{Dialog, Event, shows_button}
use reference_wallet.Approval.Sections.{Approval}
use reference_wallet.Approval.Listed.{
  Choice, status_of, ApprovalsListProps, offers, Listed, opened, is_open, set_open, modal_of,
  set_modal, are_all_closed, open_modal, ListEvent, click, inside, pass_on, press_in, handle,
  list_step, list_run,
}

-- The approval that the dialogs are about was clicked with this status.
abbrev IsClicked : Choice → Option Approval → List (String × String) → Type 0
IsClicked c none clicks = ⊥
IsClicked c (some a) clicks = Mem (a.funds_pull_pre_approval_id, status_of c) clicks

record Inv (s : Listed) : Type 0 where
  about : (c : Choice) → is_open c s ≡ true → IsClicked c s.approval_in_modal s.clicked
  covered : All (λ x. Mem x s.clicked) s.asked

-- A dialog that is open after one was opened with all closed is that one; after one was closed, it was
-- open before; and the dialogs' own states do not matter.
only_open :
    (b c : Choice) (s : Listed)
    → are_all_closed s ≡ true
    → is_open b (set_open c true s) ≡ true
    → b ≡ c
only_open Choice.approve Choice.approve s h o = refl
only_open Choice.approve Choice.reject s h o = absurd (ground (arith, h, o))
only_open Choice.approve Choice.revoke s h o = absurd (ground (arith, h, o))
only_open Choice.reject Choice.approve s h o = absurd (ground (arith, h, o))
only_open Choice.reject Choice.reject s h o = refl
only_open Choice.reject Choice.revoke s h o = absurd (ground (arith, h, o))
only_open Choice.revoke Choice.approve s h o = absurd (ground (arith, h, o))
only_open Choice.revoke Choice.reject s h o = absurd (ground (arith, h, o))
only_open Choice.revoke Choice.revoke s h o = refl

was_open : (b c : Choice) (s : Listed) → is_open b (set_open c false s) ≡ true → is_open b s ≡ true
was_open Choice.approve Choice.approve s o = absurd (cc)
was_open Choice.approve Choice.reject s o = o
was_open Choice.approve Choice.revoke s o = o
was_open Choice.reject Choice.approve s o = o
was_open Choice.reject Choice.reject s o = absurd (cc)
was_open Choice.reject Choice.revoke s o = o
was_open Choice.revoke Choice.approve s o = o
was_open Choice.revoke Choice.reject s o = o
was_open Choice.revoke Choice.revoke s o = absurd (cc)

is_open-set_modal :
    (b c : Choice) (d : Dialog) (s : Listed) → is_open b (set_modal c d s) ≡ is_open b s
is_open-set_modal Choice.approve Choice.approve d s = refl
is_open-set_modal Choice.approve Choice.reject d s = refl
is_open-set_modal Choice.approve Choice.revoke d s = refl
is_open-set_modal Choice.reject Choice.approve d s = refl
is_open-set_modal Choice.reject Choice.reject d s = refl
is_open-set_modal Choice.reject Choice.revoke d s = refl
is_open-set_modal Choice.revoke Choice.approve d s = refl
is_open-set_modal Choice.revoke Choice.reject d s = refl
is_open-set_modal Choice.revoke Choice.revoke d s = refl

set_modal-Inv : (c : Choice) (d : Dialog) (s : Listed) → Inv s → Inv (set_modal c d s)
set_modal-Inv Choice.approve d s h = record {
  about = λ b o. h.about b (sym (is_open-set_modal b Choice.approve d s) ∙ o);
  covered = h.covered;
}
set_modal-Inv Choice.reject d s h = record {
  about = λ b o. h.about b (sym (is_open-set_modal b Choice.reject d s) ∙ o);
  covered = h.covered;
}
set_modal-Inv Choice.revoke d s h = record {
  about = λ b o. h.about b (sym (is_open-set_modal b Choice.revoke d s) ∙ o);
  covered = h.covered;
}

close-Inv : (c : Choice) (s : Listed) → Inv s → Inv (set_open c false s)
close-Inv Choice.approve s h = record {
  about = λ b o. h.about b (was_open b Choice.approve s o);
  covered = h.covered;
}
close-Inv Choice.reject s h = record {
  about = λ b o. h.about b (was_open b Choice.reject s o);
  covered = h.covered;
}
close-Inv Choice.revoke s h = record {
  about = λ b o. h.about b (was_open b Choice.revoke s o);
  covered = h.covered;
}

-- The fields that a click changes in no other way than by its record update.
asked-set_open : (c : Choice) (b : Bool) (s : Listed) → (set_open c b s).asked ≡ s.asked
asked-set_open Choice.approve b s = refl
asked-set_open Choice.reject b s = refl
asked-set_open Choice.revoke b s = refl

is_open-open_modal :
    (b c : Choice) (a : Approval) (s : Listed)
    → is_open b (open_modal c a s) ≡ is_open b (set_open c true s)
unfolding open_modal
is_open-open_modal Choice.approve c a s = refl
is_open-open_modal Choice.reject c a s = refl
is_open-open_modal Choice.revoke c a s = refl

open-Inv :
    (c : Choice) (a : Approval) (s : Listed)
    → are_all_closed s ≡ true
    → Inv s
    → Inv (open_modal c a s)
unfolding open_modal
open-Inv c a s closed h =
    let clicks = (a.funds_pull_pre_approval_id, status_of c) ∷ s.clicked in
    record {
      about = λ b o.
          let same = only_open b c s closed (sym (is_open-open_modal b c a s) ∙ o) in
          subst (λ (x : Choice). Mem (a.funds_pull_pre_approval_id, status_of x) clicks) (sym same)
            mem-cons_self;
      covered =
          subst (All (λ x. Mem x clicks)) (sym (asked-set_open c true s))
            (All-imp s.asked (λ x m. mem-cons_of_mem _ m) h.covered);
    }

is_open-asked :
    (b : Choice) (x : String × String) (s : Listed)
    → is_open b (record s { asked = x ∷ s.asked }) ≡ is_open b s
is_open-asked Choice.approve x s = refl
is_open-asked Choice.reject x s = refl
is_open-asked Choice.revoke x s = refl

none_open : (b : Choice) → is_open b opened ≡ false
unfolding opened
none_open Choice.approve = refl
none_open Choice.reject = refl
none_open Choice.revoke = refl

ask-Inv :
    (x : String × String) (s : Listed)
    → Mem x s.clicked
    → Inv s
    → Inv (record s { asked = x ∷ s.asked })
ask-Inv x s m h = record {
  about = λ b o. h.about b (sym (is_open-asked b x s) ∙ o);
  covered = (m, h.covered);
}

module _ (internal_error : String) where
  -- The approval and the clicks are not among what an event of a dialog changes.
  set_modal-asked :
      (c : Choice) (d : Dialog) (x : String × String) (s : Listed)
      → Mem x s.clicked
      → Inv s
      → Inv (record (set_modal c d s) { asked = x ∷ s.asked })
  set_modal-asked Choice.approve d x s m h =
      ask-Inv x (set_modal Choice.approve d s) m (set_modal-Inv Choice.approve d s h)
  set_modal-asked Choice.reject d x s m h =
      ask-Inv x (set_modal Choice.reject d s) m (set_modal-Inv Choice.reject d s h)
  set_modal-asked Choice.revoke d x s m h =
      ask-Inv x (set_modal Choice.revoke d s) m (set_modal-Inv Choice.revoke d s h)

  press-Inv :
      (c : Choice) (about : Option Approval) (s : Listed)
      → IsClicked c about s.clicked
      → Inv s
      → Inv (press_in internal_error c about s)
  unfolding press_in
  press-Inv c none s m h = h
  press-Inv c (some a) s m h = set_modal-asked c _ (a.funds_pull_pre_approval_id, status_of c) s m h

  handle-Inv : (c : Choice) (e : Event) (s : Listed) → Inv s → Inv (handle internal_error c e s)
  unfolding handle
  handle-Inv c Event.press s h = elim (Bool-cases (is_open c s)) [
    | inl on ↦ elim (Bool-cases (shows_button (modal_of c s))) [
      | inl shown ↦ rw (on, shown) (press-Inv c s.approval_in_modal s (h.about c on) h)
      | inr hidden ↦ rw (on, hidden) h
    ]
    | inr off ↦ rw off h
  ]
  handle-Inv c Event.close s h = elim (Bool-cases (is_open c s)) [
    | inl on ↦ rw on (close-Inv c (pass_on internal_error c Event.close s) (set_modal-Inv c _ s h))
    | inr off ↦ rw off h
  ]
  handle-Inv c (Event.settled i o) s h = set_modal-Inv c _ s h

  list_step-Inv :
      (p : ApprovalsListProps) (s : Listed) (e : ListEvent)
      → Inv s
      → Inv (list_step internal_error p s e)
  unfolding list_step
  list_step-Inv p s (click c a) h = elim (Bool-cases (are_all_closed s)) [
    | inl closed ↦ elim (Bool-cases (offers p c)) [
      | inl offered ↦ rw (closed, offered) (open-Inv c a s closed h)
      | inr missing ↦ rw (closed, missing) h
    ]
    | inr covered ↦ rw covered h
  ]
  list_step-Inv p s (inside c e) h = handle-Inv c e s h

  list_run-Inv :
      (p : ApprovalsListProps) (s : Listed) (es : List ListEvent)
      → Inv s
      → Inv (list_run internal_error p s es)
  unfolding list_run
  list_run-Inv p s [] h = h
  list_run-Inv p s (e ∷ es) h =
      list_run-Inv p (list_step internal_error p s e) es (list_step-Inv p s e h)

  -- Whatever happens to a list, its dialogs never ask to approve, to reject or to revoke an approval whose
  -- button of that name was not clicked while no dialog was open.
  pub asked-IsClicked :
      (p : ApprovalsListProps) (es : List ListEvent)
      → let s = list_run internal_error p opened es in All (λ x. Mem x s.clicked) s.asked
  unfolding opened
  asked-IsClicked p es =
      let h =
        list_run-Inv p opened es
          (record { about = λ b o. absurd (ground (arith, none_open b, o)); covered = tt }) in
      h.covered
