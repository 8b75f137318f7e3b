-- ===== src/Poll/Tests.antt =====
-- Runs of the pages' loops, and the theorems at concrete runs.
use reference_wallet.Base.{ℕ, ◌+◌, ◌≤◌, ◌≡◌, refl, Bool, true, false, none, List, [], ◌∷◌, ◌==◌}
use reference_wallet.Poll.{
  Phase, Loop, Page, Event, ok, unmount, settled, tick, open_page, fetch_transactions,
  flag_clean_up, transactions_run,
}
use reference_wallet.Poll.Stopped.{IsStopped}
use reference_wallet.Poll.Stops.{own_events, transactions_run-IsStopped}

abbrev same : ℕ → ℕ → Bool
same a b = a == b

-- A page at its mount: its first request awaits the reply.
abbrev waiting : Loop ℕ
waiting = record { query = 3; is_live = true; phase = Phase.fetching; requests = 1 }

abbrev page : Page ℕ ℕ
page = record { query = 3; loops = waiting ∷ []; shown = []; timer = none }

page_opened : page ≡ open_page fetch_transactions flag_clean_up same 3
unfolding open_page fetch_transactions
page_opened = refl

-- The query has changed while the first loop awaited a reply.
abbrev stopped : Loop ℕ
stopped = record { query = 3; is_live = false; phase = Phase.fetching; requests = 1 }

abbrev changed : Page ℕ ℕ
changed = record { query = 4; loops = stopped ∷ waiting ∷ []; shown = []; timer = none }

changed-IsStopped : IsStopped changed.loops 0 1 2
changed-IsStopped = record { loop = stopped; found = refl; down = refl; asked = refl; left = refl }

abbrev events : List (Event ℕ ℕ)
events = settled 0 (ok (7 ∷ [])) ∷ tick 0 ∷ tick 0 ∷ unmount ∷ []

transactions_run-IsStopped_example :
    (k' : ℕ) × IsStopped (transactions_run same changed events).loops 0 1 k'
    × (own_events same 0 changed events + k' ≤ 2)
    × (2 ≤ 2)
transactions_run-IsStopped_example =
    transactions_run-IsStopped same changed events 0 1 2 changed-IsStopped
