-- ===== src/Approval/Sections/Selected.antt =====
-- Each list of the page is a selection of all approvals.
use reference_wallet.Base.{
  ℕ, ◌*◌, ◌≡◌, ◌∙◌, subst, inl, inr, refl, Bool, true, false, not, ◌&&◌, List, [], ◌∷◌, ◌++◌, ltb,
  Bool-cases, if◌then◌else◌,
}
use reference_wallet.Approval.Sections.{
  ApprovalStatus, Approval, Sections, push_approval, sort_approvals, no_approvals,
}

abbrev pub is_new : ApprovalStatus → Bool
is_new ApprovalStatus.pending = true
is_new _ = false

abbrev pub is_active : ℕ → ApprovalStatus → Approval → Bool
is_active now ApprovalStatus.valid a = not (ltb (a.expiration_timestamp * 1000) now)
is_active now _ a = false

abbrev pub select : (Approval → Bool) → List Approval → List Approval
select p [] = []
select p (a ∷ rest) = if p a then a ∷ select p rest else select p rest

abbrev pub new_of : List Approval → List Approval
new_of = select (λ (a : Approval). is_new a.status)

abbrev pub active_of : ℕ → List Approval → List Approval
active_of now = select (λ (a : Approval). is_active now a.status a)

abbrev pub history_of : ℕ → List Approval → List Approval
history_of now = select (λ (a : Approval). not (is_new a.status) && not (is_active now a.status a))

append_nil : (xs : List Approval) → xs ≡ xs ++ []
append_nil [] = refl
append_nil (x ∷ xs) = rw (← (append_nil xs)) refl

snoc-append : (xs ys : List Approval) (a : Approval) → (xs ++ a ∷ []) ++ ys ≡ xs ++ a ∷ ys
snoc-append [] ys a = refl
snoc-append (x ∷ xs) ys a = rw (snoc-append xs ys a) refl

-- What the lists are after approvals are pushed onto those of `s`.
abbrev pub IsSorted : ℕ → List Approval → Sections → Sections → Type 0
IsSorted now approvals s t =
    (t.new_approvals ≡ s.new_approvals ++ new_of approvals)
    × (t.active_approvals ≡ s.active_approvals ++ active_of now approvals)
    × (t.history_approvals ≡ s.history_approvals ++ history_of now approvals)

-- Pushes onto each of the lists.
new-IsSorted :
    (now : ℕ) (a : Approval) (rest : List Approval) (s t : Sections)
    → is_new a.status ≡ true
    → is_active now a.status a ≡ false
    → IsSorted now rest (record s { new_approvals = s.new_approvals ++ a ∷ [] }) t
    → IsSorted now (a ∷ rest) s t
new-IsSorted now a rest s t e f (n, v, h) =
    rw (e, f) (n ∙ snoc-append s.new_approvals (new_of rest) a, v, h)

active-IsSorted :
    (now : ℕ) (a : Approval) (rest : List Approval) (s t : Sections)
    → is_new a.status ≡ false
    → is_active now a.status a ≡ true
    → IsSorted now rest (record s { active_approvals = s.active_approvals ++ a ∷ [] }) t
    → IsSorted now (a ∷ rest) s t
active-IsSorted now a rest s t e f (n, v, h) =
    rw (e, f) (n, v ∙ snoc-append s.active_approvals (active_of now rest) a, h)

history-IsSorted :
    (now : ℕ) (a : Approval) (rest : List Approval) (s t : Sections)
    → is_new a.status ≡ false
    → is_active now a.status a ≡ false
    → IsSorted now rest (record s { history_approvals = s.history_approvals ++ a ∷ [] }) t
    → IsSorted now (a ∷ rest) s t
history-IsSorted now a rest s t e f (n, v, h) =
    rw (e, f) (n, v, h ∙ snoc-append s.history_approvals (history_of now rest) a)

push-IsSorted :
    (now : ℕ) (st : ApprovalStatus) (a : Approval) (rest : List Approval) (s t : Sections)
    → a.status ≡ st
    → IsSorted now rest (push_approval now st a s) t
    → IsSorted now (a ∷ rest) s t
unfolding push_approval
push-IsSorted now ApprovalStatus.pending a rest s t e k =
    new-IsSorted now a rest s t (rw e refl) (rw e refl) k
push-IsSorted now ApprovalStatus.valid a rest s t e k =
    elim (Bool-cases (ltb (a.expiration_timestamp * 1000) now)) [
      | inl late ↦
          history-IsSorted now a rest s t (rw e refl) (rw (e, late) refl)
            (subst (λ (b : Bool). IsSorted now rest (pushed b) t) late k)
      | inr early ↦
          active-IsSorted now a rest s t (rw e refl) (rw (e, early) refl)
            (subst (λ (b : Bool). IsSorted now rest (pushed b) t) early k)
    ]
  where
    pushed : Bool → Sections
    pushed b =
        if b
        then record s { history_approvals = s.history_approvals ++ a ∷ [] }
        else record s { active_approvals = s.active_approvals ++ a ∷ [] }
push-IsSorted now ApprovalStatus.rejected a rest s t e k =
    history-IsSorted now a rest s t (rw e refl) (rw e refl) k
push-IsSorted now ApprovalStatus.closed a rest s t e k =
    history-IsSorted now a rest s t (rw e refl) (rw e refl) k

sort-IsSorted :
    (now : ℕ) (approvals : List Approval) (s : Sections)
    → IsSorted now approvals s (sort_approvals now approvals s)
unfolding sort_approvals
sort-IsSorted now [] s =
    (append_nil s.new_approvals, append_nil s.active_approvals, append_nil s.history_approvals)
sort-IsSorted now (a ∷ rest) s =
    push-IsSorted now a.status a rest s (sort_approvals now rest (push_approval now a.status a s))
      refl (sort-IsSorted now rest (push_approval now a.status a s))

-- The page shows as new just the pending approvals, as active just the valid ones that have not
-- expired, and in its history all others, each in the order of the backend.
pub sort_approvals-selects :
    (now : ℕ) (approvals : List Approval)
    → let t = sort_approvals now approvals no_approvals in
      (t.new_approvals ≡ new_of approvals)
      × (t.active_approvals ≡ active_of now approvals)
      × (t.history_approvals ≡ history_of now approvals)
sort_approvals-selects now approvals = sort-IsSorted now approvals no_approvals
