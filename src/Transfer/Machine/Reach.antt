-- ===== src/Transfer/Machine/Reach.antt =====
-- Runs of a dialog of Transfer/Machine.antt from its mount, and what holds at each point of one.
use reference_wallet.Base.{
  ℕ, ◌≤◌, ◌≡◌, ◌≢◌, inl, inr, true, false, some, [], arith, length, All, All-get_elem?, get_elem?,
  erase_idx, Option-cases, Bool-cases, length-erase_idx_of_some,
}
use reference_wallet.Transfer.Machine.{
  Phase, Reducer, Request, Machine, Outcome, ok, backend_error, other_error, Event, shows_review,
  load, submit, back, confirm, quote_settled, execution_settled, step, view, accepts_submit,
  accepts_decision,
}
use reference_wallet.Transfer.Machine.Invariant.{
  IsHonest, IsAnswered, IsCurrent, Inv, started, collect-Inv, quote-Inv, execute-Inv,
  without_request-Inv, without_execution-Inv, loaded-Inv, finish_request-Inv, finish_execution-Inv,
}

-- The form is on the screen only in the phases "collect" and "quote".
pub accepts_submit_phase :
    {D Q : Type 0} (m : Machine D Q)
    → accepts_submit (view m) ≡ true
    → shows_review m.state.phase ≡ false
unfolding view
accepts_submit_phase m h = ground arith

-- The review's buttons can be pressed only in the phases "review" and "execute".
pub accepts_decision_phase :
    {D Q : Type 0} (m : Machine D Q)
    → m.state.phase ≢ Phase.execute
    → accepts_decision (view m) ≡ true
    → m.state.phase ≡ Phase.review
unfolding view
accepts_decision_phase m k h = ground arith

-- A dialog as it is mounted.
pub record IsInitial {D Q : Type 0} (m : Machine D Q) : Type 0 where
  pub collecting : m.state.phase ≡ Phase.collect
  pub no_requests : m.requests ≡ []
  pub no_executions : m.executions ≡ []
  pub none_executed : m.executed ≡ []

module _ {D Q : Type 0} (Answers : D → Q → Type 0) (r : Reducer D Q) where
  -- The machines that a run of honest events can reach.
  pub data Reach : Machine D Q → Type 0 where
    mounted : {m : Machine D Q} → IsInitial m → Reach m
    next : {m : Machine D Q} (e : Event D Q) → Reach m → IsHonest Answers m e → Reach (step r m e)

  initial-Inv : (m : Machine D Q) → IsInitial m → Inv Answers m
  initial-Inv m h = record {
    settled = λ e. ground (arith, h.collecting);
    current = rw (h.no_requests) tt;
    reviewed = λ e. absurd (ground (arith, h.collecting));
    answered = rw (h.none_executed) tt;
    pending = ground (arith, h.no_executions);
    counted = ground (arith, h.none_executed, h.collecting);
  }

  step_request-Inv :
      (m : Machine D Q) (i : ℕ) (o : Outcome Q)
      → Inv Answers m
      → IsHonest Answers m (quote_settled i o)
      → Inv Answers (step r m (quote_settled i o))
  unfolding step
  step_request-Inv m i o inv h = elim (Option-cases (get_elem? m.requests i)) [
    | inl missing ↦ rw missing inv
    | inr (sent, found) ↦ rw found (
        finish_request-Inv Answers r (record m { requests = erase_idx m.requests i }) sent o
          (without_request-Inv Answers m inv i)
          (All-get_elem? (IsCurrent m.state.phase m.state.request_data) m.requests i inv.current
            found)
          (honest o h sent found))
  ]
    where
      honest :
          (o : Outcome Q)
          → IsHonest Answers m (quote_settled i o)
          → (sent : Request D) → get_elem? m.requests i ≡ some sent
          → (q : Q) → o ≡ ok q
          → Answers sent.data_sent q
      honest (ok q') h sent found q e = rw (← (ok_injective e)) (h sent found)
        where
          ok_injective : ok q' ≡ ok q → q' ≡ q
          ok_injective e = cc
      honest (backend_error _) h sent found q e = absurd (cc)
      honest other_error h sent found q e = absurd (cc)

  step_execution-Inv :
      (m : Machine D Q) (i : ℕ) (o : Outcome (Unit {0}))
      → Inv Answers m
      → Inv Answers (step r m (execution_settled i o))
  unfolding step
  step_execution-Inv m i o inv = elim (Option-cases (get_elem? m.executions i)) [
    | inl missing ↦ rw missing inv
    | inr (x, found) ↦
        let fewer = length-erase_idx_of_some m.executions i found in
        rw found (
          finish_execution-Inv Answers r (record m { executions = erase_idx m.executions i }) o
            (without_execution-Inv Answers m inv i) (ground (arith, inv.pending, fewer))
            (ground (arith, inv.pending, fewer)))
  ]

  step-Inv :
      (m : Machine D Q) (e : Event D Q)
      → Inv Answers m
      → IsHonest Answers m e
      → Inv Answers (step r m e)
  unfolding step
  step-Inv m load inv h = loaded-Inv Answers m inv
  step-Inv m (submit d) inv h = elim (Bool-cases (accepts_submit (view m))) [
    | inl on ↦ rw on (quote-Inv Answers r m inv d (accepts_submit_phase m on))
    | inr off ↦ rw off inv
  ]
  step-Inv m back inv h = elim (Bool-cases (accepts_decision (view m))) [
    | inl on ↦ rw on (collect-Inv Answers r m inv (accepts_decision_phase m inv.settled on))
    | inr off ↦ rw off inv
  ]
  step-Inv m confirm inv h = elim (Bool-cases (accepts_decision (view m))) [
    | inl on ↦ rw on (execute-Inv Answers r m inv (accepts_decision_phase m inv.settled on))
    | inr off ↦ rw off inv
  ]
  step-Inv m (quote_settled i o) inv h = step_request-Inv m i o inv h
  step-Inv m (execution_settled i o) inv h = step_execution-Inv m i o inv

  pub Reach-Inv : {m : Machine D Q} → Reach m → Inv Answers m
  Reach-Inv (mounted {m} h) = initial-Inv m h
  Reach-Inv (next {m} e c h) = step-Inv m e (Reach-Inv c) h

  -- At every point of a run in which the backend's quotes answer their requests, a review on the
  -- screen shows a quote, and that quote answers the request data that the dialog holds.
  pub Reach-IsAnswered :
      {m : Machine D Q} → Reach m → shows_review m.state.phase ≡ true → IsAnswered Answers m.state
  Reach-IsAnswered c h = (Reach-Inv c).reviewed h

  -- In such a run `executeQuote` is called at most once, exactly once when the dialog is executing
  -- or done, and with a quote that answers the request data captured with it.
  pub Reach-executed_once :
      {m : Machine D Q}
      → Reach m
      → (length m.executed ≡ started m.state.phase)
        × (length m.executed ≤ 1)
        × All (λ (x : Q × D). Answers x.1 x.0) m.executed
  Reach-executed_once c =
      ((Reach-Inv c).counted, ground (arith, (Reach-Inv c).counted), (Reach-Inv c).answered)
