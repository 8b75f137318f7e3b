-- ===== src/Transfer/Machine/Invariant.antt =====
-- What holds of a dialog of Transfer/Machine.antt between two events, if the quote that the backend
-- sends for a request answers it. `Answers d q` stands for the backend's promise.
use reference_wallet.Base.{
  ℕ, ◌≤◌, ◌≡◌, ◌≢◌, ◌⊎◌, inl, inr, true, false, refl, sym, some, map, String, arith, length, All,
  All-map, All-erase_idx, get_elem?, erase_idx, Bool-cases, length-erase_idx,
}
use reference_wallet.Transfer.Machine.{
  Phase, State, Action, Reducer, Request, Machine, Outcome, ok, backend_error, other_error, Event,
  outdate, shows_review, quote_settled, dispatch, finish_request, finish_execution,
}
use reference_wallet.Transfer.Machine.Dispatch.{
  dispatch-collect, dispatch-quote, dispatch-review, dispatch-execute, dispatch-done,
  dispatch-error_quote, dispatch-error_other,
}

-- How many executions have been started, by the phase.
abbrev pub started : Phase → ℕ
started Phase.executing = 1
started Phase.done = 1
started _ = 0

-- A request whose effect is not cleaned up was sent for the form's present data, in phase "quote".
abbrev pub IsCurrent : {D : Type 0} → Phase → D → Request D → Type 0
IsCurrent p d q = q.is_outdated ≡ false → (q.data_sent ≡ d) × (p ≡ Phase.quote)

-- How many executions may be awaited.
abbrev pub awaited : Phase → ℕ
awaited Phase.executing = 1
awaited _ = 0

pub quoting : (p : Phase) → (p ≡ Phase.quote) ⊎ (p ≢ Phase.quote)
quoting Phase.quote = inl refl
quoting Phase.collect = inr (λ e. cc)
quoting _ = inr (λ e. cc)

module _ {D Q : Type 0} (Answers : D → Q → Type 0) where
  -- The environment's part: a quote that arrives answers the request that it settles.
  abbrev pub IsHonest : Machine D Q → Event D Q → Type 0
  IsHonest m (quote_settled i (ok q)) =
      (sent : Request D) → get_elem? m.requests i ≡ some sent → Answers sent.data_sent q
  IsHonest m _ = Unit

  abbrev pub IsAnswered : State D Q → Type 0
  IsAnswered s = (q : Q) × (s.quote ≡ some q) × Answers s.request_data q

  pub record Inv (m : Machine D Q) : Type 0 where
    pub settled : m.state.phase ≢ Phase.execute
    pub current : All (IsCurrent m.state.phase m.state.request_data) m.requests
    pub reviewed : shows_review m.state.phase ≡ true → IsAnswered m.state
    pub answered : All (λ (x : Q × D). Answers x.1 x.0) m.executed
    pub pending : length m.executions ≤ awaited m.state.phase
    pub counted : length m.executed ≡ started m.state.phase

  module _ (r : Reducer D Q) (m : Machine D Q) (inv : Inv m) where
    outdated : (p : Phase) (d : D) → All (IsCurrent p d) (map outdate m.requests)
    outdated p d = All-map (IsCurrent p d) outdate m.requests (λ q h. cc)

    pub collect-Inv : m.state.phase ≡ Phase.review → Inv (dispatch r Action.collect m)
    collect-Inv h = rw (dispatch-collect r m h) (record {
      settled = λ e. cc;
      current = outdated _ _;
      reviewed = λ e. absurd (cc);
      answered = inv.answered;
      pending = ground (arith, inv.pending);
      counted = ground (arith, inv.counted);
    })

    pub quote-Inv :
        (d : D) → shows_review m.state.phase ≡ false → Inv (dispatch r (Action.quote d) m)
    quote-Inv d h =
        let phase = r.reduce-quote_phase m.state d in
        let same = r.reduce-quote_data m.state d in
        rw (dispatch-quote r m d) (record {
          settled = λ e. cc;
          current = ((λ _. (sym same, phase)), outdated _ _);
          reviewed = λ e. absurd (ground arith);
          answered = inv.answered;
          pending = ground (arith, inv.pending);
          counted = ground (arith, inv.counted);
        })

    review-Inv :
        (q : Q)
        → m.state.phase ≡ Phase.quote
        → Answers m.state.request_data q
        → Inv (dispatch r (Action.review q) m)
    review-Inv q h k = rw (dispatch-review r m q) (record {
      settled = λ e. cc;
      current = outdated _ _;
      reviewed = λ e. (q, refl, k);
      answered = inv.answered;
      pending = ground (arith, inv.pending);
      counted = ground (arith, inv.counted);
    })

    pub execute-Inv : m.state.phase ≡ Phase.review → Inv (dispatch r Action.execute m)
    execute-Inv h =
        let (q, quoted, answers) = inv.reviewed (rw h) in
        rw (dispatch-execute r m q h quoted) (record {
          settled = λ e. cc;
          current = outdated _ _;
          reviewed = λ e. (q, quoted, answers);
          answered = (answers, inv.answered);
          pending = ground (arith, inv.pending);
          counted = ground (arith, inv.counted);
        })

    done-Inv :
        m.state.phase ≡ Phase.executing → length m.executions ≡ 0 → Inv (dispatch r Action.done m)
    done-Inv h e0 = rw (dispatch-done r m h) (record {
      settled = λ e. cc;
      current = outdated _ _;
      reviewed = λ e. inv.reviewed (rw h);
      answered = inv.answered;
      pending = ground (arith, inv.pending);
      counted = ground (arith, inv.counted);
    })

    error-Inv : (e : String) → Inv (dispatch r (Action.error e) m)
    error-Inv e = elim (quoting m.state.phase) [
      | inl h ↦ rw (dispatch-error_quote r m e h) (record {
        settled = λ e. cc;
        current = outdated _ _;
        reviewed = λ e. absurd (cc);
        answered = inv.answered;
        pending = ground (arith, inv.pending);
        counted = ground (arith, inv.counted);
      })
      | inr h ↦ rw (dispatch-error_other r m e h inv.settled) (record {
        settled = inv.settled;
        current = inv.current;
        reviewed = inv.reviewed;
        answered = inv.answered;
        pending = inv.pending;
        counted = inv.counted;
      })
    ]

  -- Taking a settled promise off the list keeps the invariant.
  module _ (m : Machine D Q) (inv : Inv m) (i : ℕ) where
    pub without_request-Inv : Inv (record m { requests = erase_idx m.requests i })
    without_request-Inv = record {
      settled = inv.settled;
      current =
          All-erase_idx (IsCurrent m.state.phase m.state.request_data) m.requests i inv.current;
      reviewed = inv.reviewed;
      answered = inv.answered;
      pending = inv.pending;
      counted = inv.counted;
    }

    pub without_execution-Inv : Inv (record m { executions = erase_idx m.executions i })
    without_execution-Inv = record {
      settled = inv.settled;
      current = inv.current;
      reviewed = inv.reviewed;
      answered = inv.answered;
      pending = omega (arith, inv.pending, length-erase_idx m.executions i);
      counted = inv.counted;
    }

  pub loaded-Inv : (m : Machine D Q) → Inv m → Inv (record m { is_loaded = true })
  loaded-Inv m inv = record {
    settled = inv.settled;
    current = inv.current;
    reviewed = inv.reviewed;
    answered = inv.answered;
    pending = inv.pending;
    counted = inv.counted;
  }

  module _ (r : Reducer D Q) where
    pub finish_request-Inv :
        (m : Machine D Q) (sent : Request D) (o : Outcome Q)
        → Inv m
        → IsCurrent m.state.phase m.state.request_data sent
        → ((q : Q) → o ≡ ok q → Answers sent.data_sent q)
        → Inv (finish_request r sent.is_outdated o m)
    unfolding finish_request
    finish_request-Inv m sent (ok q) inv cur honest = elim (Bool-cases sent.is_outdated) [
      | inl old ↦ rw old inv
      | inr new ↦
          let (same, quoting) = cur new in
          rw new (review-Inv r m inv q quoting (rw (← same) (honest q refl)))
    ]
    finish_request-Inv m sent (backend_error e) inv cur honest = error-Inv r m inv e
    finish_request-Inv m sent other_error inv cur honest = error-Inv r m inv "Internal Error"

    pub finish_execution-Inv :
        (m : Machine D Q) (o : Outcome (Unit {0}))
        → Inv m
        → m.state.phase ≡ Phase.executing
        → length m.executions ≡ 0
        → Inv (finish_execution r o m)
    unfolding finish_execution
    finish_execution-Inv m (ok _) inv h k = done-Inv r m inv h k
    finish_execution-Inv m (backend_error e) inv h k = error-Inv r m inv e
    finish_execution-Inv m other_error inv h k = error-Inv r m inv "Internal Error"
