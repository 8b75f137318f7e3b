-- ===== src/Poll/Stopped.antt =====
-- A loop of the web pages whose flag is down, and the writes that leave it so.
use reference_wallet.Base.{
  ℕ, zero, suc, ◌≤◌, ◌≡◌, ◌≢◌, refl, false, Option, none, some, List, [], ◌∷◌, ◌++◌, ◌==◌, arith,
  get_elem?, set, get_elem?-set_ne, get_elem?-append, if◌then◌else◌,
}
use reference_wallet.Poll.{Phase, Loop, Event, settled, tick, take_down, take_down_last}

-- How many steps a loop with its flag down has left.
abbrev pub rank : Phase → ℕ
rank Phase.fetching = 2
rank Phase.sleeping = 1
rank Phase.ended = 0

-- Whether an event is one that the loop at `i` waits for.
abbrev pub moves_at : {Q T : Type 0} → ℕ → Phase → Event Q T → ℕ
moves_at i Phase.fetching (settled j reply) = if i == j then 1 else 0
moves_at i Phase.sleeping (tick j) = if i == j then 1 else 0
moves_at i _ _ = 0

abbrev pub moves : {Q T : Type 0} → ℕ → Option (Loop Q) → Event Q T → ℕ
moves i none e = 0
moves i (some l) e = moves_at i l.phase e

-- The loop at `i` has its flag down, has made `n` requests and has `k` steps left.
pub record IsStopped {Q : Type 0} (ls : List (Loop Q)) (i n k : ℕ) : Type 0 where
  pub loop : Loop Q
  pub found : get_elem? ls i ≡ some loop
  pub down : loop.is_live ≡ false
  pub asked : loop.requests ≡ n
  pub left : rank loop.phase ≡ k

pub take_down_last-IsStopped :
    {Q : Type 0} (ls : List (Loop Q)) (i n k : ℕ)
    → IsStopped ls i n k
    → IsStopped (take_down_last ls) i n k
unfolding take_down_last
take_down_last-IsStopped [] i n k h = h
take_down_last-IsStopped (l ∷ []) zero n k h =
    let same : h.loop ≡ l = ground (arith, h.found) in
    record {
      loop = take_down l;
      found = refl;
      down = refl;
      asked = ground (arith, same, h.asked);
      left = ground (arith, same, h.left);
    }
take_down_last-IsStopped (l ∷ []) (suc i) n k h = absurd (ground (arith, h.found))
take_down_last-IsStopped (l ∷ m ∷ ls) zero n k h = record {
  loop = h.loop;
  found = h.found;
  down = h.down;
  asked = h.asked;
  left = h.left;
}
take_down_last-IsStopped (l ∷ m ∷ ls) (suc i) n k h =
    let rest =
      take_down_last-IsStopped (m ∷ ls) i n k (record {
        loop = h.loop;
        found = h.found;
        down = h.down;
        asked = h.asked;
        left = h.left;
      }) in
    record {
      loop = rest.loop;
      found = rest.found;
      down = rest.down;
      asked = rest.asked;
      left = rest.left;
    }

pub append-IsStopped :
    {Q : Type 0} (ls ms : List (Loop Q)) (i n k : ℕ)
    → IsStopped ls i n k
    → IsStopped (ls ++ ms) i n k
append-IsStopped ls ms i n k h = record {
  loop = h.loop;
  found = get_elem?-append ls ms i h.found;
  down = h.down;
  asked = h.asked;
  left = h.left;
}

-- A write to another loop leaves it alone.
pub set_ne-IsStopped :
    {Q : Type 0} (ls : List (Loop Q)) (j : ℕ) (l : Loop Q) (i n k : ℕ)
    → j ≢ i
    → IsStopped ls i n k
    → IsStopped (set ls j l) i n k
set_ne-IsStopped ls j l i n k d h = record {
  loop = h.loop;
  found = rw (get_elem?-set_ne ls j i l d) (h.found);
  down = h.down;
  asked = h.asked;
  left = h.left;
}

-- A loop has at most two steps left.
pub rank_le : (ph : Phase) → rank ph ≤ 2
rank_le Phase.fetching = omega arith
rank_le Phase.sleeping = omega arith
rank_le Phase.ended = omega arith
