-- ===== src/Approval/Details.antt =====
-- The details of a row, frontend/src/components/FundsPullPreApproval/ApprovalDetails.tsx. The texts of the
-- locale and the printing of dates are constructors.
pub mod Expired
mod Tests
use reference_wallet.Base.{
  ℕ, ◌*◌, Bool, true, false, Option, none, some, List, [], ◌∷◌, ◌++◌, String, ltb, if◌then◌else◌,
  ◌>>=◌, map,
}
use mathlib.Core.Option
use reference_wallet.Options.{lookup}
use reference_wallet.Send.Intents.{text_eq}
use reference_wallet.Approval.Sections.{ApprovalStatus}
use reference_wallet.Transactions.{Settings, Currency, amount_text}

-- `Currency`, `ScopedCumulativeAmount`, `Scope` and the fields of `Approval` that the details show, of
-- frontend/src/interfaces/approval.ts.
pub record Money : Type 0 where
  pub amount : ℕ
  pub currency : List ℕ

pub data UnitType : Type 0 where
  day week month year : UnitType

pub record CumulativeAmount : Type 0 where
  pub unit : UnitType
  pub value : ℕ
  pub max_amount : Money

pub record Scope : Type 0 where
  pub expiration_timestamp : ℕ
  pub max_cumulative_amount : Option CumulativeAmount
  pub max_transaction_amount : Option Money

pub record Details : Type 0 where
  pub status : ApprovalStatus
  pub created_at : String
  pub updated_at : String
  pub approved_at : String
  pub scope : Scope

-- A line with a date, the one of an expiration in milliseconds.
pub data DateLine : Type 0 where
  on rejected_on approved_on revoked_on : String → DateLine
  expired_on : ℕ → DateLine

-- `dateToDisplayByApprovalStatus` at the time `now`.
unfoldable pub dates_of : ℕ → ApprovalStatus → Details → List DateLine
dates_of now ApprovalStatus.pending d = on d.created_at ∷ []
dates_of now ApprovalStatus.rejected d = rejected_on d.updated_at ∷ []
dates_of now ApprovalStatus.closed d = approved_on d.approved_at ∷ revoked_on d.updated_at ∷ []
dates_of now ApprovalStatus.valid d =
    if ltb (d.scope.expiration_timestamp * 1000) now
    then approved_on d.approved_at ∷ expired_on (d.scope.expiration_timestamp * 1000) ∷ []
    else approved_on d.updated_at ∷ []

-- A line with a limit; `every` has the number of units, and whether their name is a plural.
pub data LimitLine : Type 0 where
  no_limits : LimitLine
  single_payment : List ℕ → LimitLine
  total_payments : List ℕ → ℕ → UnitType → Bool → LimitLine

-- An amount with the sign of its currency; a currency that the settings lack throws.
unfoldable pub show_money : Settings → Money → Option (List ℕ)
unfolding lookup text_eq amount_text
show_money s m =
    Option.map (λ (c : Currency). amount_text m.amount c) (lookup text_eq m.currency s.currencies)

abbrev pub single_line : Settings → Option Money → Option (List LimitLine)
unfolding show_money
single_line s none = some []
single_line s (some m) = Option.map (λ text. single_payment text ∷ []) (show_money s m)

abbrev pub total_line : Settings → Option CumulativeAmount → Option (List LimitLine)
unfolding show_money
total_line s none = some []
total_line s (some c) =
    Option.map (λ text. total_payments text c.value c.unit (ltb 1 c.value) ∷ [])
      (show_money s c.max_amount)

abbrev pub unlimited_line : Option CumulativeAmount → Option Money → List LimitLine
unlimited_line none none = no_limits ∷ []
unlimited_line _ _ = []

unfoldable pub limits_of : Settings → Scope → Option (List LimitLine)
unfolding single_line total_line
limits_of s scope = single_line s scope.max_transaction_amount >>= λ (single : List LimitLine).
    Option.map
      (λ (total : List LimitLine).
        unlimited_line scope.max_cumulative_amount scope.max_transaction_amount ++ single ++ total)
      (total_line s scope.max_cumulative_amount)
