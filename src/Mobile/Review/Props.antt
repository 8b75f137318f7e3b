-- ===== src/Mobile/Review/Props.antt =====
-- What holds of all that is pushed for review holds of all calls of the reviews.
use reference_wallet.Base.{
  ℕ, zero, suc, ◌≡◌, inl, inr, refl, some, List, [], ◌∷◌, get_elem?, set, All, All-get_elem?,
  Bool-cases, Option-cases,
}
use reference_wallet.Transfer.Machine.{Outcome, ok, backend_error, other_error}
use reference_wallet.Mobile.Review.{
  Review, Stack, Press, Event, press, settled, push, step, press_at, settle_at, finish_submit,
  shows_decision, abandoned_settled, is_success, is_sending,
}

module _ {C : Type 0} (P : C → Type 0) where
  pub record IsFed (s : Stack C) : Type 0 where
    pub reviewed : All (λ (r : Review C). P r.props) s.reviews
    pub asked : All P s.asked

  pub push-IsFed : (c : C) (s : Stack C) → P c → IsFed s → IsFed (push c s)
  unfolding push
  push-IsFed c s p h = record { reviewed = (p, h.reviewed); asked = h.asked }

  set-All :
      (rs : List (Review C)) (i : ℕ) (r : Review C)
      → P r.props
      → All (λ (r : Review C). P r.props) rs
      → All (λ (r : Review C). P r.props) (set rs i r)
  set-All [] i r p h = h
  set-All (x ∷ rs) zero r p (q, h) = (p, h)
  set-All (x ∷ rs) (suc i) r p (q, h) = (q, set-All rs i r p h)

  press-IsFed :
      (rs : List (Review C)) (b : Press) (s : Stack C)
      → All (λ (r : Review C). P r.props) rs
      → IsFed s
      → IsFed (press_at rs b s)
  unfolding press_at
  press-IsFed [] Press.header_back s a h = record { reviewed = h.reviewed; asked = h.asked }
  press-IsFed (r ∷ rs) Press.header_back s (p, a) h = record { reviewed = a; asked = h.asked }
  press-IsFed rs Press.header_home s a h = record { reviewed = tt; asked = h.asked }
  press-IsFed [] Press.confirm s a h = h
  press-IsFed [] Press.go_back s a h = h
  press-IsFed [] Press.go_to_root s a h = h
  press-IsFed (r ∷ rs) Press.confirm s (p, a) h = elim (Bool-cases (shows_decision r)) [
    | inl on ↦ rw on (record { reviewed = (p, a); asked = (p, h.asked) })
    | inr off ↦ rw off h
  ]
  press-IsFed (r ∷ rs) Press.go_back s (p, a) h = elim (Bool-cases (shows_decision r)) [
    | inl on ↦ rw on (record { reviewed = a; asked = h.asked })
    | inr off ↦ rw off h
  ]
  press-IsFed (r ∷ rs) Press.go_to_root s (p, a) h =
      elim (Bool-cases (is_success r.submit_status)) [
        | inl on ↦ rw on (record { reviewed = tt; asked = h.asked })
        | inr off ↦ rw off h
      ]

  finish-props : (o : Outcome (Unit {0})) (r : Review C) → (finish_submit o r).props ≡ r.props
  unfolding finish_submit
  finish-props (ok u) r = refl
  finish-props (backend_error e) r = refl
  finish-props other_error r = refl

  pub step-IsFed : (s : Stack C) (e : Event) → IsFed s → IsFed (step s e)
  unfolding step settle_at
  step-IsFed s (press b) h = press-IsFed s.reviews b s h.reviewed h
  step-IsFed s (abandoned_settled i) h = record { reviewed = h.reviewed; asked = h.asked }
  step-IsFed s (settled i o) h = elim (Option-cases (get_elem? s.reviews i)) [
    | inl missing ↦ rw missing h
    | inr (r, found) ↦
        rw found
          (ended r (All-get_elem? (λ (r : Review C). P r.props) s.reviews i h.reviewed found))
  ]
    where
      ended : (r : Review C) → P r.props → IsFed (settle_at (some r) i o s)
      ended r p = elim (Bool-cases (is_sending r.submit_status)) [
        | inl on ↦ rw on (record {
          reviewed = set-All s.reviews i (finish_submit o r) (rw (finish-props o r) p) h.reviewed;
          asked = h.asked;
        })
        | inr off ↦ rw off h
      ]
