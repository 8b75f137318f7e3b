-- ===== src/Admin/Liquidity.antt =====
-- The page frontend/src/pages/admin/Liquidity.tsx. Its refresh of the token writes no state of its own.
pub mod Again
use reference_wallet.Base.{
  ℕ, Bool, true, false, not, Option, none, some, List, [], ◌∷◌, map, String, if◌then◌else◌,
  get_elem?, erase_idx,
}
use reference_wallet.Backend.Http.{join}

-- `Debt` of frontend/src/interfaces/settlement.ts.
pub record Debt : Type 0 where
  pub debt_id : String
  pub currency : String
  pub amount : ℕ

-- The calls that are awaited.
pub data Pending : Type 0 where
  fetching settling listing : Pending

-- `asked` is the history of the calls of `settleDebts`, latest first.
pub record Liquidity : Type 0 where
  pub debt : List Debt
  pub is_outdated : Bool
  pub pending : List Pending
  pub asked : List (List String × String)

-- How a call ends: with a list, with nothing, or with an exception.
pub data Ending : Type 0 where
  listed : List Debt → Ending
  done thrown : Ending

unfoldable pub mount : Liquidity
mount = record { debt = []; is_outdated = false; pending = Pending.fetching ∷ []; asked = [] }

-- `fetchSettlement` after its `await`.
unfoldable pub finish_fetch : Ending → Liquidity → Liquidity
finish_fetch (listed debts) s = if not s.is_outdated then record s { debt = debts } else s
finish_fetch _ s = s

-- The names of `settings.user`; a user that is not loaded is `undefined`.
abbrev pub or_undefined : Option String → String
or_undefined none = "undefined"
or_undefined (some name) = name

unfoldable pub confirmation_of : Option String → Option String → String
unfolding join
confirmation_of first_name last_name =
    join ("Payment approved by " ∷ or_undefined first_name ∷ " " ∷ or_undefined last_name ∷ [])

-- `settle` up to its first `await`, and what follows each `await`; an exception is dropped.
unfoldable pub settle : String → Liquidity → Liquidity
settle confirmation s = record s {
  pending = Pending.settling ∷ s.pending;
  asked = (map (λ (d : Debt). d.debt_id) s.debt, confirmation) ∷ s.asked;
}

unfoldable pub finish_settling : Ending → Liquidity → Liquidity
finish_settling done s = record s { pending = Pending.listing ∷ s.pending }
finish_settling _ s = s

unfoldable pub finish_listing : Ending → Liquidity → Liquidity
finish_listing (listed debts) s = record s { debt = debts }
finish_listing _ s = s

unfoldable pub finish : Pending → Ending → Liquidity → Liquidity
unfolding finish_fetch finish_settling finish_listing
finish Pending.fetching e s = finish_fetch e s
finish Pending.settling e s = finish_settling e s
finish Pending.listing e s = finish_listing e s

unfoldable pub settle_at : Option Pending → ℕ → Ending → Liquidity → Liquidity
unfolding finish
settle_at none i e s = s
settle_at (some p) i e s = finish p e (record s { pending = erase_idx s.pending i })

pub data Event : Type 0 where
  press : String → Event
  unmount : Event
  settled : ℕ → Ending → Event

unfoldable pub step : Liquidity → Event → Liquidity
unfolding settle settle_at
step s (press confirmation) = settle confirmation s
step s unmount = record s { is_outdated = true }
step s (settled i e) = settle_at (get_elem? s.pending i) i e s

unfoldable pub run : Liquidity → List Event → Liquidity
unfolding step
run s [] = s
run s (e ∷ es) = run (step s e) es
