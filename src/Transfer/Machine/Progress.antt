-- ===== src/Transfer/Machine/Progress.antt =====
-- A dialog of Transfer/Machine.antt that waits is waited for, and a run without failures ends.
use reference_wallet.Base.{
  ℕ, zero, suc, ◌≡◌, ◌≢◌, inl, inr, Bool, true, false, not, ◌||◌, refl, ap, some, List, [], ◌∷◌,
  map, String, arith, length, get_elem?, erase_idx, Option-cases, Bool-cases, ◌∙◌,
  length-erase_idx_of_some,
}
use reference_wallet.Transfer.Machine.{
  Phase, Action, Reducer, Request, Machine, Outcome, ok, backend_error, other_error, Event, outdate,
  load, submit, back, confirm, quote_settled, execution_settled, dispatch, step, run, view,
  finish_request, finish_execution, accepts_submit, accepts_decision,
}
use reference_wallet.Transfer.Machine.Invariant.{Inv, quoting}
use reference_wallet.Transfer.Machine.Dispatch.{
  dispatch-collect, dispatch-quote, dispatch-review, dispatch-execute, dispatch-done,
  dispatch-error_quote, dispatch-error_other, step-request_found, step-request_missing,
  step-execution_found, step-execution_missing,
}
use reference_wallet.Transfer.Machine.Reach.{
  Reach, mounted, next, Reach-Inv, accepts_submit_phase, accepts_decision_phase,
}

-- Some awaited request belongs to the effect that is in force.
abbrev pub has_live : {D : Type 0} → List (Request D) → Bool
has_live [] = false
has_live (q ∷ qs) = not q.is_outdated || has_live qs

has_live-erase_idx :
    {D : Type 0} (qs : List (Request D)) (i : ℕ) {q : Request D}
    → get_elem? qs i ≡ some q
    → q.is_outdated ≡ true
    → has_live (erase_idx qs i) ≡ has_live qs
has_live-erase_idx [] i e h = refl
has_live-erase_idx (p ∷ qs) zero e h = ground arith
has_live-erase_idx (p ∷ qs) (suc i) e h =
    ap (λ b. not p.is_outdated || b) (has_live-erase_idx qs i e h)

abbrev IsWaiting : {D Q : Type 0} → Machine D Q → Type 0
IsWaiting m = m.state.phase ≡ Phase.quote → has_live m.requests ≡ true

module _ {D Q : Type 0} (Answers : D → Q → Type 0) (r : Reducer D Q) where
  error-leaves_quote :
      (m : Machine D Q) (e : String)
      → m.state.phase ≢ Phase.execute
      → (dispatch r (Action.error e) m).state.phase ≢ Phase.quote
  error-leaves_quote m e s = elim (quoting m.state.phase) [
    | inl h ↦ rw (dispatch-error_quote r m e h) (λ k. cc)
    | inr h ↦ rw (dispatch-error_other r m e h s) h
  ]

  finish_request-IsWaiting :
      (m : Machine D Q) (sent : Request D) (o : Outcome Q)
      → m.state.phase ≢ Phase.execute
      → (sent.is_outdated ≡ true → IsWaiting m)
      → IsWaiting (finish_request r sent.is_outdated o m)
  unfolding finish_request
  finish_request-IsWaiting m sent (ok q) s h = elim (Bool-cases sent.is_outdated) [
    | inl old ↦ rw old (h old)
    | inr new ↦ rw new (rw (dispatch-review r m q) (λ k. absurd (cc)))
  ]
  finish_request-IsWaiting m sent (backend_error e) s h = λ k. absurd (error-leaves_quote m e s k)
  finish_request-IsWaiting m sent other_error s h =
      λ k. absurd (error-leaves_quote m "Internal Error" s k)

  finish_execution-IsWaiting :
      (m : Machine D Q) (o : Outcome (Unit {0}))
      → m.state.phase ≡ Phase.executing
      → IsWaiting (finish_execution r o m)
  unfolding finish_execution
  finish_execution-IsWaiting m (ok _) h = rw (dispatch-done r m h) (λ k. absurd (cc))
  finish_execution-IsWaiting m (backend_error e) h =
      λ k. absurd (error-leaves_quote m e (λ p. ground arith) k)
  finish_execution-IsWaiting m other_error h =
      λ k. absurd (error-leaves_quote m "Internal Error" (λ p. ground arith) k)

  step-IsWaiting :
      (m : Machine D Q) (e : Event D Q) → Inv Answers m → IsWaiting m → IsWaiting (step r m e)
  unfolding step
  step-IsWaiting m load inv h = h
  step-IsWaiting m (submit d) inv h = elim (Bool-cases (accepts_submit (view m))) [
    | inl on ↦ rw (on, dispatch-quote r m d) (λ k. refl)
    | inr off ↦ rw off h
  ]
  step-IsWaiting m back inv h = elim (Bool-cases (accepts_decision (view m))) [
    | inl on ↦
        rw (on, dispatch-collect r m (accepts_decision_phase m inv.settled on)) (λ k. absurd (cc))
    | inr off ↦ rw off h
  ]
  step-IsWaiting m confirm inv h = elim (Bool-cases (accepts_decision (view m))) [
    | inl on ↦
        let p = accepts_decision_phase m inv.settled on in
        let (q, quoted, _) = inv.reviewed (rw p) in
        rw (on, dispatch-execute r m q p quoted) (λ k. absurd (cc))
    | inr off ↦ rw off h
  ]
  step-IsWaiting m (quote_settled i o) inv h = elim (Option-cases (get_elem? m.requests i)) [
    | inl missing ↦ rw (step-request_missing r m i o missing) h
    | inr (sent, found) ↦ rw (step-request_found r m i o found) (
        finish_request-IsWaiting (record m { requests = erase_idx m.requests i }) sent o inv.settled
          (λ old k. has_live-erase_idx m.requests i found old ∙ h k))
  ]
  step-IsWaiting m (execution_settled i o) inv h = elim (Option-cases (get_elem? m.executions i)) [
    | inl missing ↦ rw (step-execution_missing r m i o missing) h
    | inr (x, found) ↦ rw (step-execution_found r m i o found) (
        finish_execution-IsWaiting (record m { executions = erase_idx m.executions i }) o
          (ground (arith, inv.pending, length-erase_idx_of_some m.executions i found)))
  ]

  -- At every point of a run of honest events, a dialog in the phase "quote" awaits a request whose
  -- quote it will show: no order of answers leaves it waiting for nothing.
  pub Reach-has_live :
      {m : Machine D Q}
      → Reach Answers r m
      → m.state.phase ≡ Phase.quote
      → has_live m.requests ≡ true
  Reach-has_live (mounted {m} i) h = absurd (ground (arith, i.collecting))
  Reach-has_live (next {m} e c honest) h =
      step-IsWaiting m e (Reach-Inv Answers r c) (Reach-has_live c) h

  -- From any point of a run where the form of a loaded dialog is on the screen, a submission that
  -- the backend quotes, a confirmation and a successful execution end in "done", with one call of
  -- `executeQuote`, made for that quote and that submission.
  pub completes :
      {m : Machine D Q} (d : D) (q : Q)
      → Reach Answers r m
      → accepts_submit (view m) ≡ true
      → let m' =
          run r m
            (submit d ∷ quote_settled 0 (ok q) ∷ confirm ∷ execution_settled 0 (ok tt) ∷ []) in
        (m'.state.phase ≡ Phase.done) × (m'.executed ≡ (q, d) ∷ []) × (m'.executions ≡ [])
  unfolding run step view
  completes {m} d q c on =
      let inv = Reach-Inv Answers r c in
      let hidden = accepts_submit_phase m on in
      let loaded : m.is_loaded ≡ true = ground arith in
      let none_yet : m.executed ≡ [] = length_zero m.executed (ground (arith, inv.counted)) in
      let none_awaited : m.executions ≡ [] =
        length_zero m.executions (ground (arith, inv.pending)) in
      let asked = r.reduce m.state (Action.quote d) in
      let m1 = record m { state = asked; requests = map outdate m.requests } in
      rw
        (
          on,
          dispatch-quote r m d,
          dispatch-review r m1 q,
          loaded,
          r.reduce-execute,
          r.reduce-executing,
          r.reduce-done,
          r.reduce-quote_data m.state d,
          none_yet,
        )
        (refl, refl, none_awaited)
    where
      length_zero : (xs : List (Q × D)) → length xs ≡ 0 → xs ≡ []
      length_zero [] e = refl
      length_zero (y ∷ ys) e = absurd (omega arith)
