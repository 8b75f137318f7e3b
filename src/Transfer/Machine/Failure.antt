-- ===== src/Transfer/Machine/Failure.antt =====
-- Failures of a dialog of Transfer/Machine.antt: of an execution, and of a request that a newer one
-- has replaced.
use reference_wallet.Base.{
  ℕ, ◌≡◌, ◌≢◌, inl, inr, Bool, true, refl, some, List, [], ◌∷◌, String, arith, length, All, All-map,
  All-erase_idx, All-get_elem?, get_elem?, erase_idx, Option-cases, Bool-cases,
  length-erase_idx_of_some, All-imp,
}
use reference_wallet.Transfer.Machine.{
  Phase, Action, Reducer, Request, Machine, Outcome, ok, backend_error, other_error, Event, outdate,
  load, submit, back, confirm, quote_settled, execution_settled, dispatch, step, run, view,
  finish_request, finish_execution, accepts_submit, accepts_decision,
}
use reference_wallet.Transfer.Machine.Invariant.{Inv}
use reference_wallet.Transfer.Machine.Dispatch.{
  dispatch-error_quote, dispatch-error_other, step-request_found, step-request_missing,
  step-execution_found, step-execution_missing,
}
use reference_wallet.Transfer.Machine.Reach.{
  Reach, Reach-Inv, accepts_submit_phase, accepts_decision_phase,
}

abbrev pub IsFailed : {A : Type 0} → Outcome A → Type 0
IsFailed (ok a) = ⊥
IsFailed _ = Unit

abbrev pub AllOutdated : {D : Type 0} → List (Request D) → Type 0
AllOutdated {D} = All (λ (q : Request D). q.is_outdated ≡ true)

-- An execution is over, and the phase is still "executing".
record IsStuck {D Q : Type 0} (m : Machine D Q) : Type 0 where
  executing : m.state.phase ≡ Phase.executing
  none_awaited : m.executions ≡ []
  all_outdated : AllOutdated m.requests

module _ {D Q : Type 0} (r : Reducer D Q) where
  error-IsStuck :
      (m : Machine D Q) (e : String)
      → IsStuck m
      → IsStuck (dispatch r (Action.error e) m)
        × ((dispatch r (Action.error e) m).executed ≡ m.executed)
  error-IsStuck m e h =
      rw
        (dispatch-error_other r m e (λ k. ground (arith, h.executing))
          (λ k. ground (arith, h.executing)))
        (
          record {
            executing = h.executing;
            none_awaited = h.none_awaited;
            all_outdated = h.all_outdated;
          },
          refl,
        )

  finish_request-IsStuck :
      (m : Machine D Q) (o : Outcome Q)
      → IsStuck m
      → IsStuck (finish_request r true o m) × ((finish_request r true o m).executed ≡ m.executed)
  unfolding finish_request
  finish_request-IsStuck m (ok q) h = (h, refl)
  finish_request-IsStuck m (backend_error e) h = error-IsStuck m e h
  finish_request-IsStuck m other_error h = error-IsStuck m "Internal Error" h

  step-IsStuck :
      (m : Machine D Q) (e : Event D Q)
      → IsStuck m
      → IsStuck (step r m e) × ((step r m e).executed ≡ m.executed)
  unfolding step
  step-IsStuck m load h = (
    record {
      executing = h.executing;
      none_awaited = h.none_awaited;
      all_outdated = h.all_outdated;
    },
    refl,
  )
  step-IsStuck m (submit d) h = elim (Bool-cases (accepts_submit (view m))) [
    | inl on ↦ absurd (ground (arith, accepts_submit_phase m on, h.executing))
    | inr off ↦ rw off (h, refl)
  ]
  step-IsStuck m back h = elim (Bool-cases (accepts_decision (view m))) [
    | inl on ↦ absurd (
        ground (arith, accepts_decision_phase m (λ k. ground (arith, h.executing)) on, h.executing))
    | inr off ↦ rw off (h, refl)
  ]
  step-IsStuck m confirm h = elim (Bool-cases (accepts_decision (view m))) [
    | inl on ↦ absurd (
        ground (arith, accepts_decision_phase m (λ k. ground (arith, h.executing)) on, h.executing))
    | inr off ↦ rw off (h, refl)
  ]
  step-IsStuck m (quote_settled i o) h = elim (Option-cases (get_elem? m.requests i)) [
    | inl missing ↦ rw missing (h, refl)
    | inr (sent, found) ↦
        let old =
          All-get_elem? (λ (q : Request D). q.is_outdated ≡ true) m.requests i h.all_outdated
            found in
        rw (found, old)
          (finish_request-IsStuck (record m { requests = erase_idx m.requests i }) o
            (record {
              executing = h.executing;
              none_awaited = h.none_awaited;
              all_outdated =
                  All-erase_idx (λ (q : Request D). q.is_outdated ≡ true) m.requests i
                    h.all_outdated;
            }))
  ]
  step-IsStuck m (execution_settled i o) h =
      rw (step-execution_missing r m i o (rw (h.none_awaited))) (h, refl)

  run-IsStuck :
      (es : List (Event D Q)) (m : Machine D Q)
      → IsStuck m
      → IsStuck (run r m es) × ((run r m es).executed ≡ m.executed)
  unfolding run
  run-IsStuck [] m h = (h, refl)
  run-IsStuck (e ∷ es) m h =
      let (h', same) = step-IsStuck m e h in
      let (h'', same') = run-IsStuck es (step r m e) h' in (h'', rw (same', same))

module _ {D Q : Type 0} (Answers : D → Q → Type 0) (r : Reducer D Q) where
  outdated_unless_quote :
      {m : Machine D Q} → Inv Answers m → m.state.phase ≢ Phase.quote → AllOutdated m.requests
  outdated_unless_quote {m} inv h =
      All-imp m.requests
        (λ q cur. elim (Bool-cases q.is_outdated) [
          | inl old ↦ old
          | inr new ↦ absurd (h (cur new).1)
        ])
        inv.current

  finish_execution-IsStuck :
      (m : Machine D Q) (o : Outcome (Unit {0}))
      → IsFailed o
      → IsStuck m
      → IsStuck (finish_execution r o m) × ((finish_execution r o m).executed ≡ m.executed)
  unfolding finish_execution
  finish_execution-IsStuck m (ok _) f h = absurd f
  finish_execution-IsStuck m (backend_error e) f h = error-IsStuck r m e h
  finish_execution-IsStuck m other_error f h = error-IsStuck r m "Internal Error" h

  no_execution_left :
      {m : Machine D Q} (i : ℕ) (x : Q × D)
      → Inv Answers m
      → get_elem? m.executions i ≡ some x
      → (m.state.phase ≡ Phase.executing) × (erase_idx m.executions i ≡ [])
  no_execution_left {m} i x inv found =
      let fewer = length-erase_idx_of_some m.executions i found in
      (ground (arith, inv.pending, fewer), length_zero _ (ground (arith, inv.pending, fewer)))
    where
      length_zero : (xs : List (Q × D)) → length xs ≡ 0 → xs ≡ []
      length_zero [] e = refl
      length_zero (y ∷ ys) e = absurd (omega arith)

  -- In a run of honest events, once an execution has failed, the dialog stays in the phase
  -- "executing" whatever events follow, and never calls `executeQuote` again.
  pub failed_execution_sticks :
      {m : Machine D Q} (i : ℕ) (o : Outcome (Unit {0})) (x : Q × D) (es : List (Event D Q))
      → Reach Answers r m
      → get_elem? m.executions i ≡ some x
      → IsFailed o
      → let m' = run r (step r m (execution_settled i o)) es in
        (m'.state.phase ≡ Phase.executing) × (m'.executed ≡ m.executed)
  failed_execution_sticks {m} i o x es c found f =
      let inv = Reach-Inv Answers r c in
      let (executing, empty) = no_execution_left i x inv found in
      let (stuck, same) =
        finish_execution-IsStuck (record m { executions = erase_idx m.executions i }) o f
          (record {
            executing = executing;
            none_awaited = empty;
            all_outdated = outdated_unless_quote inv (λ k. ground (arith, executing));
          }) in
      rw (step-execution_found r m i o found) (
        let (stuck', same') =
          run-IsStuck r es
            (finish_execution r o (record m { executions = erase_idx m.executions i })) stuck in
        (stuck'.executing, rw (same', same)))

  error_in_quote :
      (m : Machine D Q) (e : String)
      → m.state.phase ≡ Phase.quote
      → ((dispatch r (Action.error e) m).state.phase ≡ Phase.collect)
        × AllOutdated (dispatch r (Action.error e) m).requests
  error_in_quote m e h =
      rw (dispatch-error_quote r m e h)
        (refl, All-map (λ (q : Request D). q.is_outdated ≡ true) outdate m.requests (λ q. refl))

  failure_in_quote :
      (m : Machine D Q) (b : Bool) (o : Outcome Q)
      → IsFailed o
      → m.state.phase ≡ Phase.quote
      → ((finish_request r b o m).state.phase ≡ Phase.collect)
        × AllOutdated (finish_request r b o m).requests
  unfolding finish_request
  failure_in_quote m b (ok q) f h = absurd f
  failure_in_quote m b (backend_error e) f h = error_in_quote m e h
  failure_in_quote m b other_error f h = error_in_quote m "Internal Error" h

  late_quote_ignored :
      (m : Machine D Q) (j : ℕ) (q : Q)
      → AllOutdated m.requests
      → (step r m (quote_settled j (ok q))).state ≡ m.state
  unfolding finish_request
  late_quote_ignored m j q h = elim (Option-cases (get_elem? m.requests j)) [
    | inl missing ↦ rw (step-request_missing r m j (ok q) missing)
    | inr (sent, found) ↦
        rw (step-request_found r m j (ok q) found)
          (rw (All-get_elem? (λ (q : Request D). q.is_outdated ≡ true) m.requests j h found))
  ]

  -- While a quote is awaited, the failure of any request, also of one that a newer submission has
  -- replaced, brings the form back, and every quote that arrives then is ignored.
  stale_failure_drops_newer :
      (m : Machine D Q) (i : ℕ) (o : Outcome Q) (old : Request D)
      → m.state.phase ≡ Phase.quote
      → get_elem? m.requests i ≡ some old
      → IsFailed o
      → let m' = step r m (quote_settled i o) in
        (m'.state.phase ≡ Phase.collect)
        × ((j : ℕ) (q : Q) → (step r m' (quote_settled j (ok q))).state ≡ m'.state)
  stale_failure_drops_newer m i o old h found f = rw (step-request_found r m i o found) (
      let m' = record m { requests = erase_idx m.requests i } in
      let (collecting, outdated) = failure_in_quote m' old.is_outdated o f h in
      (collecting, λ j q. late_quote_ignored _ j q outdated))
