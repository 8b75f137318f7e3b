-- ===== src/Transfer/Machine/Dispatch.antt =====
-- What each dispatch of Transfer/Machine.antt does to the machine, by the reducer's laws.
use reference_wallet.Base.{
  ℕ, get_elem?, erase_idx, ◌≡◌, ◌≢◌, false, none, some, ◌∷◌, map, String, arith,
}
use reference_wallet.Transfer.Machine.{
  Outcome, finish_request, finish_execution, step, quote_settled, execution_settled, Phase, Action,
  Reducer, Request, Machine, outdate, dispatch,
}

module _ {D Q : Type 0} (r : Reducer D Q) (m : Machine D Q) where
  pub dispatch-collect :
      m.state.phase ≡ Phase.review
      → dispatch r Action.collect m ≡ record m {
        state = record (m.state) { phase = Phase.collect };
        requests = map outdate m.requests;
      }
  unfolding dispatch
  dispatch-collect h = ground (arith, r.reduce-collect m.state)

  pub dispatch-quote :
      (d : D)
      → dispatch r (Action.quote d) m ≡ record m {
        state = r.reduce m.state (Action.quote d);
        requests = (record { data_sent = d; is_outdated = false }) ∷ map outdate m.requests;
      }
  unfolding dispatch
  dispatch-quote d = ground (arith, r.reduce-quote_phase m.state d, r.reduce-quote_data m.state d)

  pub dispatch-review :
      (q : Q)
      → dispatch r (Action.review q) m ≡ record m {
        state = record (m.state) { phase = Phase.review; quote = some q };
        requests = map outdate m.requests;
      }
  unfolding dispatch
  dispatch-review q = rw (r.reduce-review m.state q)

  pub dispatch-execute :
      (q : Q)
      → m.state.phase ≡ Phase.review
      → m.state.quote ≡ some q
      → dispatch r Action.execute m ≡ record m {
        state = record (m.state) { phase = Phase.executing };
        requests = map outdate m.requests;
        executions = (q, m.state.request_data) ∷ m.executions;
        executed = (q, m.state.request_data) ∷ m.executed;
      }
  unfolding dispatch
  dispatch-execute q h k = ground (
    arith,
    r.reduce-execute m.state,
    r.reduce-executing (record (m.state) { phase = Phase.execute }),
  )

  pub dispatch-done :
      m.state.phase ≡ Phase.executing
      → dispatch r Action.done m ≡ record m {
        state = record (m.state) { phase = Phase.done };
        requests = map outdate m.requests;
      }
  unfolding dispatch
  dispatch-done h = ground (arith, r.reduce-done m.state)

  -- A failed quote goes back to the form.
  pub dispatch-error_quote :
      (e : String)
      → m.state.phase ≡ Phase.quote
      → dispatch r (Action.error e) m ≡ record m {
        state = record (m.state) { phase = Phase.collect; error_message = some e };
        requests = map outdate m.requests;
      }
  unfolding dispatch
  dispatch-error_quote e h = ground (arith, r.reduce-error m.state e)

  -- In any other phase that lasts, a failure shows its message and nothing else happens.
  pub dispatch-error_other :
      (e : String)
      → m.state.phase ≢ Phase.quote
      → m.state.phase ≢ Phase.execute
      → dispatch r (Action.error e) m
        ≡ record m { state = record (m.state) { error_message = some e } }
  unfolding dispatch
  dispatch-error_other e h k = ground (arith, r.reduce-error m.state e)

  -- A promise that settles leaves its list; an index with no promise changes nothing.
  pub step-request_found :
      (i : ℕ) (o : Outcome Q) {sent : Request D}
      → get_elem? m.requests i ≡ some sent
      → step r m (quote_settled i o)
        ≡ finish_request r sent.is_outdated o (record m { requests = erase_idx m.requests i })
  unfolding step
  step-request_found i o found = rw found

  pub step-request_missing :
      (i : ℕ) (o : Outcome Q) → get_elem? m.requests i ≡ none → step r m (quote_settled i o) ≡ m
  unfolding step
  step-request_missing i o missing = rw missing

  pub step-execution_found :
      (i : ℕ) (o : Outcome (Unit {0})) {x : Q × D}
      → get_elem? m.executions i ≡ some x
      → step r m (execution_settled i o)
        ≡ finish_execution r o (record m { executions = erase_idx m.executions i })
  unfolding step
  step-execution_found i o found = rw found

  pub step-execution_missing :
      (i : ℕ) (o : Outcome (Unit {0}))
      → get_elem? m.executions i ≡ none
      → step r m (execution_settled i o) ≡ m
  unfolding step
  step-execution_missing i o missing = rw missing
