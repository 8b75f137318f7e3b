-- ===== src/Poll/Stops.antt =====
-- The loops of the web pages end once their flag is down.
use reference_wallet.Base.{
  ℕ, ◌+◌, ◌≤◌, ◌≡◌, ◌≢◌, inl, inr, refl, Bool, false, Option, none, some, List, [], ◌∷◌, ◌==◌,
  arith, get_elem?, get_elem?-set_self, Bool-cases, ==_iff,
}
use reference_wallet.Poll.{
  Phase, Loop, Reply, ok, failed, Page, Event, change_query, unmount, settled, tick,
  fetch_transactions, take_down_last, flag_clean_up, settle, settle_at, fire, fire_at,
  transactions_step, transactions_run,
}
use reference_wallet.Poll.Stopped.{
  rank, moves_at, moves, IsStopped, take_down_last-IsStopped, append-IsStopped, set_ne-IsStopped,
  rank_le,
}

-- What is left after an event.
abbrev pub Remains : {Q : Type 0} → List (Loop Q) → ℕ → ℕ → ℕ → ℕ → Type 0
Remains ls i n k m = (k' : ℕ) × IsStopped ls i n k' × (m + k' ≤ k)

module _ {Q T : Type 0} (p : Page Q T) (i n k : ℕ) where
  unmoved : {m : ℕ} → m ≡ 0 → IsStopped p.loops i n k → Remains p.loops i n k m
  unmoved z h = (k, h, omega (arith, z))

  settle_self-Remains :
      (l : Loop Q) (ph : Phase) (reply : Reply T)
      → l.phase ≡ ph
      → get_elem? p.loops i ≡ some l
      → l.is_live ≡ false
      → l.requests ≡ n
      → rank ph ≡ k
      → Remains (settle i l ph reply p).loops i n k (moves_at {Q = Q} i ph (settled i reply))
  unfolding settle
  settle_self-Remains l Phase.fetching (ok items) e f d a r = (
    1,
    record {
      loop = record l { phase = Phase.sleeping };
      found = get_elem?-set_self p.loops i _ f;
      down = d;
      asked = a;
      left = refl;
    },
    ground (arith, r),
  )
  settle_self-Remains l Phase.fetching failed e f d a r = (
    0,
    record {
      loop = record l { phase = Phase.ended };
      found = get_elem?-set_self p.loops i _ f;
      down = d;
      asked = a;
      left = refl;
    },
    ground (arith, r),
  )
  settle_self-Remains l Phase.sleeping reply e f d a r =
      unmoved refl
        (record { loop = l; found = f; down = d; asked = a; left = ground (arith, e, r) })
  settle_self-Remains l Phase.ended reply e f d a r =
      unmoved refl
        (record { loop = l; found = f; down = d; asked = a; left = ground (arith, e, r) })

  fire_self-Remains :
      (same : Q → Q → Bool) (l : Loop Q) (ph : Phase)
      → l.phase ≡ ph
      → get_elem? p.loops i ≡ some l
      → l.is_live ≡ false
      → l.requests ≡ n
      → rank ph ≡ k
      → Remains
          (fire fetch_transactions flag_clean_up same i l ph p).loops
          i
          n
          k
          (moves_at {Q = Q} {T = T} i ph (tick i))
  unfolding fire fetch_transactions
  fire_self-Remains same l Phase.sleeping e f d a r = (
    0,
    record {
      loop = record l { phase = Phase.ended };
      found = rw d (get_elem?-set_self p.loops i _ f);
      down = d;
      asked = a;
      left = refl;
    },
    ground (arith, r),
  )
  fire_self-Remains same l Phase.fetching e f d a r =
      unmoved refl
        (record { loop = l; found = f; down = d; asked = a; left = ground (arith, e, r) })
  fire_self-Remains same l Phase.ended e f d a r =
      unmoved refl
        (record { loop = l; found = f; down = d; asked = a; left = ground (arith, e, r) })

  settle_other-IsStopped :
      (j : ℕ) (o : Option (Loop Q)) (reply : Reply T)
      → j ≢ i
      → IsStopped p.loops i n k
      → IsStopped (settle_at o j reply p).loops i n k
  unfolding settle_at
  settle_other-IsStopped j none reply d h = h
  settle_other-IsStopped j (some l) reply d h = at_phase l.phase reply
    where
      at_phase : (ph : Phase) (reply : Reply T) → IsStopped (settle j l ph reply p).loops i n k
      at_phase Phase.fetching (ok items) = set_ne-IsStopped p.loops j _ i n k d h
      at_phase Phase.fetching failed = set_ne-IsStopped p.loops j _ i n k d h
      at_phase Phase.sleeping reply = h
      at_phase Phase.ended reply = h

  fire_other-IsStopped :
      (same : Q → Q → Bool) (j : ℕ) (o : Option (Loop Q))
      → j ≢ i
      → IsStopped p.loops i n k
      → IsStopped (fire_at fetch_transactions flag_clean_up same o j p).loops i n k
  unfolding fire_at
  fire_other-IsStopped same j none d h = h
  fire_other-IsStopped same j (some l) d h = at_phase l.phase
    where
      at_phase :
          (ph : Phase) → IsStopped (fire fetch_transactions flag_clean_up same j l ph p).loops i n k
      at_phase Phase.fetching = h
      at_phase Phase.sleeping = set_ne-IsStopped p.loops j _ i n k d h
      at_phase Phase.ended = h

-- An event of another loop is none of its own.
moves-other :
    {Q T : Type 0} (i j : ℕ) (o : Option (Loop Q)) (reply : Reply T)
    → (i == j) ≡ false
    → (moves i o (settled j reply) ≡ 0) × (moves {T = T} i o (tick j) ≡ 0)
moves-other i j none reply d = (refl, refl)
moves-other {Q} {T} i j (some l) reply d = at_phase l.phase
  where
    at_phase :
        (ph : Phase)
        → (moves_at {Q = Q} i ph (settled j reply) ≡ 0)
          × (moves_at {Q = Q} {T = T} i ph (tick j) ≡ 0)
    at_phase Phase.fetching = (rw d refl, refl)
    at_phase Phase.sleeping = (refl, rw d refl)
    at_phase Phase.ended = (refl, refl)

-- Nor is a change of the query, or the unmount.
moves-none :
    {Q : Type 0} (T : Type 0) (i : ℕ) (o : Option (Loop Q)) (q : Q)
    → (moves {T = T} i o (change_query q) ≡ 0) × (moves {T = T} i o unmount ≡ 0)
moves-none T i none q = (refl, refl)
moves-none {Q} T i (some l) q = at_phase l.phase
  where
    at_phase :
        (ph : Phase)
        → (moves_at {Q = Q} {T = T} i ph (change_query q) ≡ 0)
          × (moves_at {Q = Q} {T = T} i ph unmount ≡ 0)
    at_phase Phase.fetching = (refl, refl)
    at_phase Phase.sleeping = (refl, refl)
    at_phase Phase.ended = (refl, refl)

module _ {Q T : Type 0} (same : Q → Q → Bool) where
  step-Remains :
      (p : Page Q T) (e : Event Q T) (i n k : ℕ)
      → IsStopped p.loops i n k
      → Remains (transactions_step same p e).loops i n k (moves i (get_elem? p.loops i) e)
  unfolding transactions_step
  step-Remains p (change_query q) i n k h =
      let none_own = moves-none T i (get_elem? p.loops i) q in
      elim (Bool-cases (same q p.query)) [
        | inl on ↦ rw on (k, h, omega (arith, none_own.0))
        | inr off ↦ rw off (
          k,
          append-IsStopped (take_down_last p.loops) _ i n k
              (take_down_last-IsStopped p.loops i n k h),
          omega (arith, none_own.0),
        )
      ]
  step-Remains p unmount i n k h = (
    k,
    take_down_last-IsStopped p.loops i n k h,
    omega (arith, (moves-none T i (get_elem? p.loops i) p.query).1),
  )
  step-Remains p (settled j reply) i n k h = elim (Bool-cases (i == j)) [
    | inl on ↦
        rw (← ((==_iff i j).0 on), h.found)
          (settle_self-Remains p i n k h.loop h.loop.phase reply refl h.found h.down h.asked h.left)
    | inr off ↦ (
      k,
      settle_other-IsStopped p i n k j (get_elem? p.loops j) reply (apart off) h,
      omega (arith, (moves-other i j (get_elem? p.loops i) reply off).0),
    )
  ]
    where
      apart : (i == j) ≡ false → j ≢ i
      apart off e = ground (arith, off)
  step-Remains p (tick j) i n k h = elim (Bool-cases (i == j)) [
    | inl on ↦
        rw (← ((==_iff i j).0 on), h.found)
          (fire_self-Remains p i n k same h.loop h.loop.phase refl h.found h.down h.asked h.left)
    | inr off ↦ (
      k,
      fire_other-IsStopped p i n k same j (get_elem? p.loops j) (apart off) h,
      omega (arith, (moves-other {T = T} i j (get_elem? p.loops i) failed off).1),
    )
  ]
    where
      apart : (i == j) ≡ false → j ≢ i
      apart off e = ground (arith, off)

  -- How many events of a run are the loop's own.
  pub own_events : ℕ → Page Q T → List (Event Q T) → ℕ
  own_events i p [] = 0
  own_events i p (e ∷ es) =
      moves i (get_elem? p.loops i) e + own_events i (transactions_step same p e) es

  -- A loop of the web pages' transactions whose flag is down makes no further request, whatever
  -- happens, and at most two more events are its own: the reply that it awaits and its timer.
  pub transactions_run-IsStopped :
      (p : Page Q T) (es : List (Event Q T)) (i n k : ℕ)
      → IsStopped p.loops i n k
      → (k' : ℕ) × IsStopped (transactions_run same p es).loops i n k'
        × (own_events i p es + k' ≤ k)
        × (k ≤ 2)
  unfolding transactions_run own_events
  transactions_run-IsStopped p [] i n k h =
      (k, h, omega arith, omega (arith, h.left, rank_le h.loop.phase))
  transactions_run-IsStopped p (e ∷ es) i n k h =
      let (m, stopped, left) = step-Remains p e i n k h in
      let (k', after, rest, _) =
        transactions_run-IsStopped (transactions_step same p e) es i n m stopped in
      (k', after, omega (arith, left, rest), omega (arith, h.left, rank_le h.loop.phase))
