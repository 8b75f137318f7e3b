-- ===== src/Approval/Sections.antt =====
-- The three lists of frontend/src/pages/FundsPullPreApprovals.tsx.
pub mod Selected
use reference_wallet.Base.{ℕ, ◌*◌, Bool, List, [], ◌∷◌, ◌++◌, String, ltb, if◌then◌else◌}

pub data ApprovalStatus : Type 0 where
  pending valid rejected closed : ApprovalStatus

-- `scope.expiration_timestamp` is in seconds.
pub record Approval : Type 0 where
  pub funds_pull_pre_approval_id : String
  pub status : ApprovalStatus
  pub expiration_timestamp : ℕ

pub record Sections : Type 0 where
  pub new_approvals : List Approval
  pub active_approvals : List Approval
  pub history_approvals : List Approval

-- Where an approval is pushed, `now` being the time in milliseconds.
unfoldable pub push_approval : ℕ → ApprovalStatus → Approval → Sections → Sections
push_approval now ApprovalStatus.pending a s = record s {
  new_approvals = s.new_approvals ++ a ∷ [];
}
push_approval now ApprovalStatus.valid a s =
    if ltb (a.expiration_timestamp * 1000) now
    then record s { history_approvals = s.history_approvals ++ a ∷ [] }
    else record s { active_approvals = s.active_approvals ++ a ∷ [] }
push_approval now _ a s = record s { history_approvals = s.history_approvals ++ a ∷ [] }

-- The loop over the approvals; `now` is taken as the same in all its turns.
unfoldable pub sort_approvals : ℕ → List Approval → Sections → Sections
unfolding push_approval
sort_approvals now [] s = s
sort_approvals now (a ∷ rest) s = sort_approvals now rest (push_approval now a.status a s)

abbrev pub no_approvals : Sections
no_approvals = record { new_approvals = []; active_approvals = []; history_approvals = [] }
