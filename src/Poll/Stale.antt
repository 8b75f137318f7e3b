-- ===== src/Poll/Stale.antt =====
-- What the pages' loops do once they are outdated.
use reference_wallet.Base.{
  ℕ, zero, suc, ◌+◌, ◌≡◌, refl, Bool, false, Option, none, some, List, [], ◌∷◌, arith,
}
use reference_wallet.Poll.{
  Phase, Loop, ok, Page, Event, change_query, unmount, settled, tick, ask, new_loop,
  fetch_approvals, fetch_mobile, take_down, take_down_last, end_loop, clear_timer,
  transactions_step, approvals_step, mobile_step, approvals_run, mobile_run,
}

-- A page whose first loop sleeps, after it has made `n` requests.
pub record IsAsleep {Q T : Type 0} (p : Page Q T) (live : Bool) (n : ℕ) : Type 0 where
  pub loop : Loop Q
  pub rest : List (Loop Q)
  pub first : p.loops ≡ loop ∷ rest
  pub asleep : loop.phase ≡ Phase.sleeping
  pub flag : loop.is_live ≡ live
  pub asked : loop.requests ≡ n

-- When the query changes while the page's loop awaits a reply, the reply to the old query is shown
-- under the new one once it arrives.
stale_reply_shown :
    {Q T : Type 0} (same : Q → Q → Bool) (p : Page Q T) (l : Loop Q) (q : Q) (items : List T)
    → p.loops ≡ l ∷ []
    → l.phase ≡ Phase.fetching
    → same q p.query ≡ false
    → let s = transactions_step same in
      let answered = s (s p (change_query q)) (settled 0 (ok items)) in
      (answered.query ≡ q) × (answered.shown ≡ items)
unfolding transactions_step
stale_reply_shown same p l q items one fetching other = rw (other, one, fetching) (refl, refl)

-- The events of a mobile page's first loop in `n` rounds of it.
abbrev pub rounds : {Q T : Type 0} → ℕ → List T → List (Event Q T)
rounds zero items = []
rounds (suc n) items = tick 0 ∷ settled 0 (ok items) ∷ rounds n items

abbrev pub ticks : {Q T : Type 0} → ℕ → List (Event Q T)
ticks zero = []
ticks (suc n) = tick 0 ∷ ticks n

-- The timer's fate leaves a loop that awaits a reply alone.
clear_timer-fetching :
    {Q : Type 0} (t : Option ℕ) (l : Loop Q)
    → l.phase ≡ Phase.fetching
    → clear_timer t (l ∷ []) ≡ l ∷ []
unfolding clear_timer
clear_timer-fetching none l f = refl
clear_timer-fetching (some zero) l f = rw f refl
clear_timer-fetching (some (suc i)) l f = end_of_list i
  where
    end_of_list : (i : ℕ) → l ∷ clear_timer (some i) [] ≡ l ∷ []
    end_of_list zero = refl
    end_of_list (suc i) = refl

module _ {Q T : Type 0} (same : Q → Q → Bool) where
  round-IsAsleep :
      (items : List T) (p : Page Q T) (live : Bool) (n : ℕ)
      → IsAsleep p live n
      → IsAsleep
          (mobile_step same (mobile_step same p (tick 0)) (settled 0 (ok items)))
          live
          (suc n)
  unfolding mobile_step
  round-IsAsleep items p live n h = record {
    loop = record (ask h.loop) { phase = Phase.sleeping };
    rest = h.rest;
    first = rw (h.first, h.asleep) refl;
    asleep = refl;
    flag = h.flag;
    asked = ground (arith, h.asked);
  }

  rounds-IsAsleep :
      (items : List T) (p : Page Q T) (live : Bool) (n k : ℕ)
      → IsAsleep p live n
      → IsAsleep (mobile_run same p (rounds k items)) live (k + n)
  unfolding mobile_run
  rounds-IsAsleep items p live n zero h = let e : 0 + n ≡ n = omega arith in rw e h
  rounds-IsAsleep items p live n (suc k) h =
      let e : k + suc n ≡ suc k + n = omega arith in
      rw (← e) (
        rounds-IsAsleep items
          (mobile_step same (mobile_step same p (tick 0)) (settled 0 (ok items))) live (suc n) k
          (round-IsAsleep items p live n h))

  tick-IsAsleep :
      (p : Page Q T) (n : ℕ)
      → IsAsleep p false n
      → IsAsleep (approvals_step same p (tick 0)) false n
  unfolding approvals_step fetch_approvals
  tick-IsAsleep p n h = record {
    loop = record h.loop { phase = Phase.sleeping };
    rest = h.rest;
    first = rw (h.first, h.asleep, h.flag) refl;
    asleep = refl;
    flag = h.flag;
    asked = h.asked;
  }

  ticks-IsAsleep :
      (p : Page Q T) (n k : ℕ)
      → IsAsleep p false n
      → IsAsleep (approvals_run same p (ticks k)) false n
  unfolding approvals_run
  ticks-IsAsleep p n zero h = h
  ticks-IsAsleep p n (suc k) h =
      ticks-IsAsleep (approvals_step same p (tick 0)) n k (tick-IsAsleep p n h)

  changed-IsAsleep :
      (p : Page Q T) (l : Loop Q) (q : Q) (items : List T)
      → p.loops ≡ l ∷ []
      → l.phase ≡ Phase.fetching
      → same q p.query ≡ false
      → IsAsleep
          (mobile_run same p
            (change_query q ∷ settled 0 (ok items) ∷ settled 1 (ok items) ∷ unmount ∷ []))
          l.is_live
          l.requests
  unfolding mobile_run fetch_mobile
  changed-IsAsleep p l q items one fetching other =
      let kept = clear_timer-fetching p.timer l fetching in
      record {
        loop = record l { phase = Phase.sleeping };
        rest = end_loop (ask (new_loop q)) ∷ [];
        first = rw (other, one, kept, fetching) refl;
        asleep = refl;
        flag = refl;
        asked = refl;
      }

  -- When the query of a mobile page changes while its loop awaits a reply, and the page goes after both
  -- loops have had theirs, the first loop goes on, one more request a round, for any number of rounds.
  mobile_loop_goes_on :
      (p : Page Q T) (l : Loop Q) (q : Q) (items : List T) (k : ℕ)
      → p.loops ≡ l ∷ []
      → l.phase ≡ Phase.fetching
      → same q p.query ≡ false
      → IsAsleep
          (mobile_run same p (
            change_query q
            ∷ settled 0 (ok items)
            ∷ settled 1 (ok items)
            ∷ unmount
            ∷ rounds k items))
          l.is_live
          (k + l.requests)
  unfolding mobile_run fetch_mobile
  mobile_loop_goes_on p l q items k one fetching other =
      rounds-IsAsleep items
        (mobile_run same p
          (change_query q ∷ settled 0 (ok items) ∷ settled 1 (ok items) ∷ unmount ∷ []))
        l.is_live l.requests k (changed-IsAsleep p l q items one fetching other)

  -- After an unmount, the timer of the sleeping loop of a page's approvals is set again at each tick,
  -- however many there are, and no request is made.
  approvals_timer_stays :
      (p : Page Q T) (l : Loop Q) (k : ℕ)
      → p.loops ≡ l ∷ []
      → l.phase ≡ Phase.sleeping
      → IsAsleep (approvals_run same p (unmount ∷ ticks k)) false l.requests
  unfolding approvals_run take_down_last
  approvals_timer_stays p l k one asleep =
      ticks-IsAsleep (approvals_step same p unmount) l.requests k (record {
        loop = take_down l;
        rest = [];
        first = rw one refl;
        asleep = asleep;
        flag = refl;
        asked = refl;
      })
