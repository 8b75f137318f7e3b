-- ===== src/Poll.antt =====
-- The loops that fetch a list again and again while a page is on the screen. `fetchTransactions` of
-- frontend/src/pages/Transactions.tsx, Home.tsx and Account.tsx and `fetchApprovals` of Home.tsx and
-- FundsPullPreApprovals.tsx look at a flag that the effect's clean-up takes down; `fetchTransactions` of
-- mobile/src/screens/Transactions.tsx and Home.tsx is stopped by `clearTimeout` alone.
pub mod Stopped
pub mod Stops
pub mod Stale
mod Tests
use reference_wallet.Base.{
  ℕ, zero, suc, ◌+◌, Bool, true, false, Option, none, some, List, [], ◌∷◌, ◌++◌, ◌==◌, length,
  get_elem?, set, if◌then◌else◌,
}

-- A loop awaits a reply, or its timer, or is over.
pub data Phase : Type 0 where
  fetching sleeping ended : Phase

-- One run of the effect, with the query and the flag that its closure holds, and how many requests
-- it has made.
pub record Loop (Q : Type 0) : Type 0 where
  pub query : Q
  pub is_live : Bool
  pub phase : Phase
  pub requests : ℕ

pub data Reply (T : Type 0) : Type 0 where
  ok : List T → Reply T
  failed : Reply T

-- `loops` are those of all runs of the effect, the latest last; `timer` is the loop whose timer the
-- mobile pages' reference holds.
pub record Page (Q T : Type 0) : Type 0 where
  pub query : Q
  pub loops : List (Loop Q)
  pub shown : List T
  pub timer : Option ℕ

pub data Event (Q T : Type 0) : Type 0 where
  change_query : Q → Event Q T
  unmount : Event Q T
  settled : ℕ → Reply T → Event Q T
  tick : ℕ → Event Q T

abbrev pub ask : {Q : Type 0} → Loop Q → Loop Q
ask l = record l { phase = Phase.fetching; requests = suc l.requests }

-- A call of `fetchTransactions`: nothing is done, and nothing is scheduled, once the flag is down.
unfoldable pub fetch_transactions : {Q : Type 0} → Loop Q → Loop Q
fetch_transactions l = if l.is_live then ask l else record l { phase = Phase.ended }

-- A call of `fetchApprovals`: the timer is set whether the flag is up or down.
unfoldable pub fetch_approvals : {Q : Type 0} → Loop Q → Loop Q
fetch_approvals l = if l.is_live then ask l else record l { phase = Phase.sleeping }

-- A call of the mobile pages' `fetchTransactions`, which look at no flag.
unfoldable pub fetch_mobile : {Q : Type 0} → Loop Q → Loop Q
fetch_mobile l = ask l

abbrev pub take_down : {Q : Type 0} → Loop Q → Loop Q
take_down l = record l { is_live = false }

-- The clean-up of the latest effect.
unfoldable pub take_down_last : {Q : Type 0} → List (Loop Q) → List (Loop Q)
take_down_last [] = []
take_down_last (l ∷ []) = take_down l ∷ []
take_down_last (l ∷ k ∷ ls) = l ∷ take_down_last (k ∷ ls)

abbrev pub end_loop : {Q : Type 0} → Loop Q → Loop Q
end_loop l = record l { phase = Phase.ended }

-- `clearTimeout`: a timer that has not fired yet is dropped.
abbrev pub end_sleeping : {Q : Type 0} → Phase → Loop Q → Loop Q
end_sleeping Phase.sleeping l = end_loop l
end_sleeping _ l = l

unfoldable pub clear_timer : {Q : Type 0} → Option ℕ → List (Loop Q) → List (Loop Q)
clear_timer none ls = ls
clear_timer (some zero) [] = []
clear_timer (some (suc i)) [] = []
clear_timer (some zero) (l ∷ ls) = end_sleeping l.phase l ∷ ls
clear_timer (some (suc i)) (l ∷ ls) = l ∷ clear_timer (some i) ls

abbrev pub new_loop : {Q : Type 0} → Q → Loop Q
new_loop q = record { query = q; is_live = true; phase = Phase.sleeping; requests = 0 }

-- What follows the `await`: the reply is shown, whatever has become of the loop since, and the timer
-- is set; after a failure it is not.
unfoldable pub settle : {Q T : Type 0} → ℕ → Loop Q → Phase → Reply T → Page Q T → Page Q T
settle i l Phase.fetching (ok items) p = record p {
  loops = set p.loops i (record l { phase = Phase.sleeping });
  shown = items;
  timer = some i;
}
settle i l Phase.fetching failed p = record p { loops = set p.loops i (end_loop l) }
settle i l _ reply p = p

unfoldable pub settle_at : {Q T : Type 0} → Option (Loop Q) → ℕ → Reply T → Page Q T → Page Q T
unfolding settle
settle_at none i reply p = p
settle_at (some l) i reply p = settle i l l.phase reply p

module _ {Q T : Type 0} (fetch : Loop Q → Loop Q)
    (clean_up : Option ℕ → List (Loop Q) → List (Loop Q)) (same : Q → Q → Bool) where
  unfoldable pub fire : ℕ → Loop Q → Phase → Page Q T → Page Q T
  fire i l Phase.sleeping p = record p { loops = set p.loops i (fetch l) }
  fire i l _ p = p

  unfoldable pub fire_at : Option (Loop Q) → ℕ → Page Q T → Page Q T
  unfolding fire
  fire_at none i p = p
  fire_at (some l) i p = fire i l l.phase p

  -- The effect runs again when the query is another one.
  unfoldable pub step : Page Q T → Event Q T → Page Q T
  unfolding settle_at fire_at
  step p (change_query q) =
      if same q p.query
      then p
      else record p { query = q; loops = clean_up p.timer p.loops ++ fetch (new_loop q) ∷ [] }
  step p unmount = record p { loops = clean_up p.timer p.loops }
  step p (settled i reply) = settle_at (get_elem? p.loops i) i reply p
  step p (tick i) = fire_at (get_elem? p.loops i) i p

  unfoldable pub run : Page Q T → List (Event Q T) → Page Q T
  run p [] = p
  run p (e ∷ es) = run (step p e) es

  -- The page at its mount.
  unfoldable pub open_page : Q → Page Q T
  open_page q = record { query = q; loops = fetch (new_loop q) ∷ []; shown = []; timer = none }

-- The web pages' clean-up, and the steps of the three kinds of page.
abbrev pub flag_clean_up : {Q : Type 0} → Option ℕ → List (Loop Q) → List (Loop Q)
flag_clean_up timer ls = take_down_last ls

unfoldable pub transactions_step : {Q T : Type 0} → (Q → Q → Bool) → Page Q T → Event Q T → Page Q T
unfolding step fetch_transactions take_down_last
transactions_step = step fetch_transactions flag_clean_up

unfoldable pub transactions_run :
    {Q T : Type 0} → (Q → Q → Bool) → Page Q T → List (Event Q T) → Page Q T
unfolding run transactions_step
transactions_run = run fetch_transactions flag_clean_up

unfoldable pub approvals_step : {Q T : Type 0} → (Q → Q → Bool) → Page Q T → Event Q T → Page Q T
unfolding step fetch_approvals take_down_last
approvals_step = step fetch_approvals flag_clean_up

unfoldable pub mobile_step : {Q T : Type 0} → (Q → Q → Bool) → Page Q T → Event Q T → Page Q T
unfolding step fetch_mobile clear_timer
mobile_step = step fetch_mobile clear_timer

unfoldable pub approvals_run :
    {Q T : Type 0} → (Q → Q → Bool) → Page Q T → List (Event Q T) → Page Q T
unfolding run approvals_step
approvals_run = run fetch_approvals flag_clean_up

unfoldable pub mobile_run : {Q T : Type 0} → (Q → Q → Bool) → Page Q T → List (Event Q T) → Page Q T
unfolding run mobile_step
mobile_run = run fetch_mobile clear_timer
