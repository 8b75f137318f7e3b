-- ===== src/Transfer/Machine/Fed.antt =====
-- What a dialog of Transfer/Machine.antt sends is what its form has submitted: a property of all data
-- submitted holds of all data sent.
use reference_wallet.Base.{
  ◌≡◌, ◌⊎◌, inl, inr, refl, sym, subst, Bool, true, false, Option, none, some, List, [], ◌∷◌, map,
  arith, All, All-erase_idx, get_elem?, erase_idx, Option-cases, Bool-cases,
}
use reference_wallet.Transfer.Machine.{
  Phase, State, Action, Reducer, Request, Machine, Outcome, ok, backend_error, other_error, Event,
  outdate, load, submit, back, confirm, quote_settled, execution_settled, step, dispatch,
  run_effect, start_execution, finish_request, finish_execution, settle_request, settle_execution,
  view, accepts_submit, accepts_decision, same_dependencies,
}
use reference_wallet.Transfer.Machine.Reach.{IsInitial}

All-outdate :
    {D : Type 0} (P : D → Type 0) (rs : List (Request D))
    → All (λ (x : Request D). P x.data_sent) rs
    → All (λ (x : Request D). P x.data_sent) (map outdate rs)
All-outdate P [] h = tt
All-outdate P (x ∷ rs) (p, h) = (p, All-outdate P rs h)

module _ {D Q : Type 0} (P : D → Type 0) where
  -- What the environment submits has the property.
  abbrev pub IsProper : Event D Q → Type 0
  IsProper (submit d) = P d
  IsProper _ = Unit

  -- All data held and sent has the property.
  pub record IsFed (m : Machine D Q) : Type 0 where
    pub held : P m.state.request_data
    pub requested : All (λ (x : Request D). P x.data_sent) m.requests
    pub executed : All (λ (x : Q × D). P x.1) m.executed

  module _ (r : Reducer D Q) where
    -- The data of the form after an action.
    data_after : State D Q → Action D Q → D
    data_after s (Action.quote d) = d
    data_after s _ = s.request_data

    reduce-data_after :
        (s : State D Q) (a : Action D Q) → (r.reduce s a).request_data ≡ data_after s a
    unfolding data_after
    reduce-data_after s Action.collect = rw (r.reduce-collect s)
    reduce-data_after s (Action.quote d) = r.reduce-quote_data s d
    reduce-data_after s (Action.review q) = rw (r.reduce-review s q)
    reduce-data_after s Action.execute = rw (r.reduce-execute s)
    reduce-data_after s Action.executing = rw (r.reduce-executing s)
    reduce-data_after s Action.done = rw (r.reduce-done s)
    reduce-data_after s (Action.error e) = rw (r.reduce-error s e)

    reduce-IsFed :
        (a : Action D Q) (m : Machine D Q)
        → P (data_after m.state a)
        → All (λ (x : Request D). P x.data_sent) m.requests
        → All (λ (x : Q × D). P x.1) m.executed
        → IsFed (record m { state = r.reduce m.state a })
    reduce-IsFed a m p rs es = record {
      held = subst P (sym (reduce-data_after m.state a)) p;
      requested = rs;
      executed = es;
    }

    start_execution-IsFed :
        (q : Option Q) (m : Machine D Q) → IsFed m → IsFed (start_execution r q m)
    unfolding start_execution data_after
    start_execution-IsFed none m h =
        let before = reduce-IsFed Action.executing m h.held h.requested h.executed in
        reduce-IsFed (Action.error "Internal Error")
          (record m { state = r.reduce m.state Action.executing }) before.held h.requested
          h.executed
    start_execution-IsFed (some q) m h =
        reduce-IsFed Action.executing
          (record m {
            executions = (q, m.state.request_data) ∷ m.executions;
            executed = (q, m.state.request_data) ∷ m.executed;
          })
          h.held h.requested (h.held, h.executed)

    run_effect-IsFed : (p : Phase) (m : Machine D Q) → IsFed m → IsFed (run_effect r p m)
    unfolding run_effect
    run_effect-IsFed Phase.collect m h = h
    run_effect-IsFed Phase.quote m h = record {
      held = h.held;
      requested = (h.held, h.requested);
      executed = h.executed;
    }
    run_effect-IsFed Phase.review m h = h
    run_effect-IsFed Phase.execute m h = start_execution-IsFed m.state.quote m h
    run_effect-IsFed Phase.executing m h = h
    run_effect-IsFed Phase.done m h = h

    dispatch-IsFed :
        (a : Action D Q) (m : Machine D Q)
        → P (data_after m.state a)
        → All (λ (x : Request D). P x.data_sent) m.requests
        → All (λ (x : Q × D). P x.1) m.executed
        → IsFed (dispatch r a m)
    unfolding dispatch
    dispatch-IsFed a m p rs es =
        elim (Bool-cases (same_dependencies a m.state.phase (r.reduce m.state a).phase)) [
          | inl same ↦ rw same (reduce-IsFed a m p rs es)
          | inr other ↦ rw other (
              run_effect-IsFed (r.reduce m.state a).phase _ (
                reduce-IsFed a (record m { requests = map outdate m.requests }) p
                  (All-outdate P m.requests rs) es))
        ]

    finish_request-IsFed :
        (b : Bool) (o : Outcome Q) (m : Machine D Q) → IsFed m → IsFed (finish_request r b o m)
    unfolding finish_request data_after
    finish_request-IsFed true (ok q) m h = h
    finish_request-IsFed false (ok q) m h =
        dispatch-IsFed (Action.review q) m h.held h.requested h.executed
    finish_request-IsFed b (backend_error e) m h =
        dispatch-IsFed (Action.error e) m h.held h.requested h.executed
    finish_request-IsFed b other_error m h =
        dispatch-IsFed (Action.error "Internal Error") m h.held h.requested h.executed

    finish_execution-IsFed :
        (o : Outcome (Unit {0})) (m : Machine D Q) → IsFed m → IsFed (finish_execution r o m)
    unfolding finish_execution data_after
    finish_execution-IsFed (ok u) m h = dispatch-IsFed Action.done m h.held h.requested h.executed
    finish_execution-IsFed (backend_error e) m h =
        dispatch-IsFed (Action.error e) m h.held h.requested h.executed
    finish_execution-IsFed other_error m h =
        dispatch-IsFed (Action.error "Internal Error") m h.held h.requested h.executed

    step-IsFed : (m : Machine D Q) (e : Event D Q) → IsProper e → IsFed m → IsFed (step r m e)
    unfolding step settle_request settle_execution data_after
    step-IsFed m load p h = record { held = h.held; requested = h.requested; executed = h.executed }
    step-IsFed m (submit d) p h = elim (Bool-cases (accepts_submit (view m))) [
      | inl on ↦ rw on (dispatch-IsFed (Action.quote d) m p h.requested h.executed)
      | inr off ↦ rw off h
    ]
    step-IsFed m back p h = elim (Bool-cases (accepts_decision (view m))) [
      | inl on ↦ rw on (dispatch-IsFed Action.collect m h.held h.requested h.executed)
      | inr off ↦ rw off h
    ]
    step-IsFed m confirm p h = elim (Bool-cases (accepts_decision (view m))) [
      | inl on ↦ rw on (dispatch-IsFed Action.execute m h.held h.requested h.executed)
      | inr off ↦ rw off h
    ]
    step-IsFed m (quote_settled i o) p h = elim (Option-cases (get_elem? m.requests i)) [
      | inl missing ↦ rw missing h
      | inr (sent, found) ↦ rw found (
          finish_request-IsFed sent.is_outdated o (record m { requests = erase_idx m.requests i })
            (record {
              held = h.held;
              requested = All-erase_idx _ m.requests i h.requested;
              executed = h.executed;
            }))
    ]
    step-IsFed m (execution_settled i o) p h = elim (Option-cases (get_elem? m.executions i)) [
      | inl missing ↦ rw missing h
      | inr (x, found) ↦ rw found (
          finish_execution-IsFed o (record m { executions = erase_idx m.executions i })
            (record { held = h.held; requested = h.requested; executed = h.executed }))
    ]

    undecided : (m : Machine D Q) → IsInitial m → accepts_decision (view m) ≡ false
    unfolding view
    undecided m h = ground (arith, h.collecting)

    fresh-step :
        (m : Machine D Q) (e : Event D Q)
        → IsProper e
        → IsInitial m
        → IsInitial (step r m e) ⊎ IsFed (step r m e)
    unfolding step settle_request settle_execution data_after
    fresh-step m load p h = inl (record {
      collecting = h.collecting;
      no_requests = h.no_requests;
      no_executions = h.no_executions;
      none_executed = h.none_executed;
    })
    fresh-step m (submit d) p h = elim (Bool-cases (accepts_submit (view m))) [
      | inl on ↦ rw on (
          inr
            (dispatch-IsFed (Action.quote d) m p (rw (h.no_requests) tt) (rw (h.none_executed) tt)))
      | inr off ↦ rw off (inl h)
    ]
    fresh-step m back p h = rw (undecided m h) (inl h)
    fresh-step m confirm p h = rw (undecided m h) (inl h)
    fresh-step m (quote_settled i o) p h =
        let missing : get_elem? m.requests i ≡ none = rw (h.no_requests) refl in rw missing (inl h)
    fresh-step m (execution_settled i o) p h =
        let missing : get_elem? m.executions i ≡ none = rw (h.no_executions) refl in
        rw missing (inl h)

    -- The machines that a run reaches in which all data submitted has the property.
    pub data Reach : Machine D Q → Type 0 where
      mounted : {m : Machine D Q} → IsInitial m → Reach m
      next : {m : Machine D Q} (e : Event D Q) → Reach m → IsProper e → Reach (step r m e)

    pub Reach-IsFed : {m : Machine D Q} → Reach m → IsInitial m ⊎ IsFed m
    Reach-IsFed (mounted h) = inl h
    Reach-IsFed (next {m} e c p) = continue (Reach-IsFed c)
      where
        continue : IsInitial m ⊎ IsFed m → IsInitial (step r m e) ⊎ IsFed (step r m e)
        continue (inl h) = fresh-step m e p h
        continue (inr h) = inr (step-IsFed m e p h)

    -- In a run in which all data submitted has the property, so has all data requested and executed.
    pub Reach-sent :
        {m : Machine D Q}
        → Reach m
        → All (λ (x : Request D). P x.data_sent) m.requests × All (λ (x : Q × D). P x.1) m.executed
    Reach-sent {m} c = sent (Reach-IsFed c)
      where
        sent :
            IsInitial m ⊎ IsFed m
            → All (λ (x : Request D). P x.data_sent) m.requests
              × All (λ (x : Q × D). P x.1) m.executed
        sent (inl h) = (rw (h.no_requests) tt, rw (h.none_executed) tt)
        sent (inr h) = (h.requested, h.executed)
