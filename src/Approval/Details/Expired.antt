-- ===== src/Approval/Details/Expired.antt =====
-- The details of an approval beside the section that it stands in.
use reference_wallet.Base.{
  ℕ, ◌*◌, ◌≡◌, refl, Bool, true, false, List, [], ◌∷◌, ltb, Bool-cases, inl, inr, if◌then◌else◌,
}
use reference_wallet.Approval.Sections.{ApprovalStatus, Approval, sort_approvals, no_approvals}
use reference_wallet.Approval.Details.{
  Details, DateLine, on, rejected_on, approved_on, revoked_on, expired_on, dates_of,
}

abbrev says_expired : List DateLine → Bool
says_expired [] = false
says_expired (expired_on t ∷ lines) = true
says_expired (on t ∷ lines) = says_expired lines
says_expired (rejected_on t ∷ lines) = says_expired lines
says_expired (approved_on t ∷ lines) = says_expired lines
says_expired (revoked_on t ∷ lines) = says_expired lines

-- The page puts a valid approval into the history just when the details call it expired, and among the
-- active ones when they do not.
expired_in_history :
    (now : ℕ) (a : Approval) (d : Details)
    → a.status ≡ ApprovalStatus.valid
    → a.expiration_timestamp ≡ d.scope.expiration_timestamp
    → let s = sort_approvals now (a ∷ []) no_approvals in
      let expired = says_expired (dates_of now ApprovalStatus.valid d) in
      (s.history_approvals ≡ (if expired then a ∷ [] else []))
      × (s.active_approvals ≡ (if expired then [] else a ∷ []))
unfolding sort_approvals dates_of
expired_in_history now a d valid same =
    elim (Bool-cases (ltb (d.scope.expiration_timestamp * 1000) now)) [
      | inl over ↦ rw (valid, same, over) (refl, refl)
      | inr open_yet ↦ rw (valid, same, open_yet) (refl, refl)
    ]
