-- ===== src/Mobile/Review/Once.antt =====
-- The calls of the reviews of the mobile screens, counted.
use reference_wallet.Base.{
  ℕ, zero, suc, ◌+◌, ◌≤◌, ◌≡◌, inl, inr, refl, subst, ap, Bool, true, false, not, ◌&&◌, Option,
  none, some, List, [], ◌∷◌, length, get_elem?, set, arith, Bool-cases,
}
use reference_wallet.Transfer.Machine.{Outcome, ok, backend_error, other_error}
use reference_wallet.Mobile.Review.{
  Review, Stack, Press, Event, press, settled, abandoned_settled, step, press_at, settle_at,
  finish_submit, failed_after, shows_decision, is_success, is_sending, no_reviews, is_on_top, push,
}

abbrev pub count_of : Bool → ℕ
count_of true = 1
count_of false = 0

-- The reviews that can be confirmed.
abbrev pub decisions : {C : Type 0} → List (Review C) → ℕ
decisions [] = 0
decisions (r ∷ rs) = count_of (shows_decision r) + decisions rs

-- No more calls than reviews and failed replies.
abbrev pub IsCounted : {C : Type 0} → Stack C → Type 0
IsCounted s = length s.asked + decisions s.reviews ≤ s.pushed + s.failed

-- No more calls than failed replies and one, with what can still lead to a call.
abbrev pub IsSingle : {C : Type 0} → Stack C → Type 0
IsSingle s = length s.asked + decisions s.reviews + count_of (is_on_top s) ≤ suc s.failed

-- The header's buttons are pressed only when the top screen is the form or a review that can be confirmed.
abbrev pub decides : {C : Type 0} → List (Review C) → Bool
decides [] = true
decides (r ∷ rs) = shows_decision r

abbrev pub IsPatient : {C : Type 0} → Stack C → Event → Type 0
IsPatient s (press Press.header_back) = decides s.reviews ≡ true
IsPatient s (press Press.header_home) = decides s.reviews ≡ true
IsPatient s _ = Unit

-- A review whose call ends can be confirmed again just when the call has failed.
finish-failed :
    {C : Type 0} (o : Outcome (Unit {0})) (r : Review C) (n : ℕ)
    → count_of (shows_decision (finish_submit o r)) + n ≡ failed_after o n
unfolding finish_submit
finish-failed (ok u) r n = omega arith
finish-failed (backend_error e) r n = omega arith
finish-failed other_error r n = omega arith

set-decisions :
    {C : Type 0} (o : Outcome (Unit {0})) (rs : List (Review C)) (i n : ℕ) (r : Review C)
    → decisions (set rs i (finish_submit o r)) + n ≤ failed_after o n + decisions rs
set-decisions o [] i n r = omega (arith, finish-failed o r n)
set-decisions o (x ∷ rs) zero n r = omega (arith, finish-failed o r n)
set-decisions o (x ∷ rs) (suc i) n r = omega (arith, set-decisions o rs i n r)

failed-le : (o : Outcome (Unit {0})) (n : ℕ) → n ≤ failed_after o n
failed-le (ok u) n = omega arith
failed-le (backend_error e) n = omega arith
failed-le other_error n = omega arith

on_top_le : {C : Type 0} (s : Stack C) → count_of (is_on_top s) ≤ 1
on_top_le s = elim (Bool-cases (is_on_top s)) [
  | inl on ↦ rw on (omega arith)
  | inr off ↦ rw off (omega arith)
]

-- Setting a review leaves no form free that was not.
set-on_top :
    {C : Type 0} (rs : List (Review C)) (i : ℕ) (r : Review C)
    → no_reviews (set rs i r) ≡ no_reviews rs
set-on_top [] i r = refl
set-on_top (x ∷ rs) zero r = refl
set-on_top (x ∷ rs) (suc i) r = refl

module _ {C : Type 0} where
  press-IsCounted :
      (s : Stack C) (rs : List (Review C)) (b : Press)
      → length s.asked + decisions rs ≤ s.pushed + s.failed
      → IsCounted s
      → IsCounted (press_at rs b s)
  unfolding press_at
  press-IsCounted s [] Press.header_back h k = k
  press-IsCounted s (r ∷ rs) Press.header_back h k = omega (arith, h)
  press-IsCounted s rs Press.header_home h k = omega (arith, h)
  press-IsCounted s [] Press.confirm h k = k
  press-IsCounted s [] Press.go_back h k = k
  press-IsCounted s [] Press.go_to_root h k = k
  press-IsCounted s (r ∷ rs) Press.confirm h k = elim (Bool-cases (shows_decision r)) [
    | inl on ↦ rw on (ground (arith, on, h))
    | inr off ↦ rw off k
  ]
  press-IsCounted s (r ∷ rs) Press.go_back h k = elim (Bool-cases (shows_decision r)) [
    | inl on ↦ rw on (omega (arith, h))
    | inr off ↦ rw off k
  ]
  press-IsCounted s (r ∷ rs) Press.go_to_root h k = elim (Bool-cases (is_success r.submit_status)) [
    | inl on ↦ rw on (omega (arith, h))
    | inr off ↦ rw off k
  ]

  settle-IsCounted :
      (s : Stack C) (i : ℕ) (o : Outcome (Unit {0})) (c : Option (Review C))
      → IsCounted s
      → IsCounted (settle_at c i o s)
  unfolding settle_at
  settle-IsCounted s i o none k = k
  settle-IsCounted s i o (some r) k = elim (Bool-cases (is_sending r.submit_status)) [
    | inl on ↦ rw on (omega (arith, k, set-decisions o s.reviews i s.failed r))
    | inr off ↦ rw off k
  ]

  pub step-IsCounted : (s : Stack C) (e : Event) → IsCounted s → IsCounted (step s e)
  unfolding step
  step-IsCounted s (press b) k = press-IsCounted s s.reviews b k k
  step-IsCounted s (settled i o) k = settle-IsCounted s i o (get_elem? s.reviews i) k
  step-IsCounted s (abandoned_settled i) k = k

  pub push-IsCounted : (c : C) (s : Stack C) → IsCounted s → IsCounted (push c s)
  unfolding push
  push-IsCounted c s k = omega (arith, k)

  -- The form is free, or there is less to confirm.
  press-IsSingle :
      (s : Stack C) (rs : List (Review C)) (b : Press)
      → s.reviews ≡ rs
      → IsPatient s (press b)
      → length s.asked + decisions rs + count_of (no_reviews rs && not s.is_closed) ≤ suc s.failed
      → IsSingle (press_at rs b s)
  unfolding press_at
  press-IsSingle s [] Press.header_back e p h = rw e (omega (arith, h))
  press-IsSingle s (r ∷ rs) Press.header_back e p h =
      let on : shows_decision r ≡ true = subst (λ (l : List (Review C)). decides l ≡ true) e p in
      elim (Bool-cases (no_reviews rs && not s.is_closed)) [
        | inl free ↦ rw free (ground (arith, on, h))
        | inr taken ↦ rw taken (ground (arith, on, h))
      ]
  press-IsSingle s rs Press.header_home e p h = omega (arith, h)
  press-IsSingle s [] Press.confirm e p h = rw e h
  press-IsSingle s [] Press.go_back e p h = rw e h
  press-IsSingle s [] Press.go_to_root e p h = rw e h
  press-IsSingle s (r ∷ rs) Press.confirm e p h = elim (Bool-cases (shows_decision r)) [
    | inl on ↦ rw on (ground (arith, on, h))
    | inr off ↦ rw (off, e) h
  ]
  press-IsSingle s (r ∷ rs) Press.go_back e p h = elim (Bool-cases (shows_decision r)) [
    | inl on ↦ rw on (ground (arith, on, h))
    | inr off ↦ rw (off, e) h
  ]
  press-IsSingle s (r ∷ rs) Press.go_to_root e p h =
      elim (Bool-cases (is_success r.submit_status)) [
        | inl on ↦ rw on (omega (arith, h))
        | inr off ↦ rw (off, e) h
      ]

  settle-IsSingle :
      (s : Stack C) (i : ℕ) (o : Outcome (Unit {0})) (c : Option (Review C))
      → IsSingle s
      → IsSingle (settle_at c i o s)
  unfolding settle_at
  settle-IsSingle s i o none k = k
  settle-IsSingle s i o (some r) k = elim (Bool-cases (is_sending r.submit_status)) [
    | inl on ↦
        rw (on, set-on_top s.reviews i (finish_submit o r))
          (omega (arith, k, set-decisions o s.reviews i s.failed r))
    | inr off ↦ rw off k
  ]

  pub step-IsSingle : (s : Stack C) (e : Event) → IsPatient s e → IsSingle s → IsSingle (step s e)
  unfolding step
  step-IsSingle s (press b) p k = press-IsSingle s s.reviews b refl p k
  step-IsSingle s (settled i o) p k = settle-IsSingle s i o (get_elem? s.reviews i) k
  step-IsSingle s (abandoned_settled i) p k = k

  pub push-IsSingle : (c : C) (s : Stack C) → is_on_top s ≡ true → IsSingle s → IsSingle (push c s)
  unfolding push
  push-IsSingle c s free k = ground (arith, free, k)

  length-set : (rs : List (Review C)) (i : ℕ) (r : Review C) → length (set rs i r) ≡ length rs
  length-set [] i r = refl
  length-set (x ∷ rs) zero r = refl
  length-set (x ∷ rs) (suc i) r = ap suc (length-set rs i r)

  press-length :
      (s : Stack C) (rs : List (Review C)) (b : Press)
      → s.reviews ≡ rs
      → length (press_at rs b s).reviews ≤ length rs
  unfolding press_at
  press-length s [] Press.header_back e = rw e (omega arith)
  press-length s (r ∷ rs) Press.header_back e = omega arith
  press-length s rs Press.header_home e = omega arith
  press-length s [] Press.confirm e = rw e (omega arith)
  press-length s [] Press.go_back e = rw e (omega arith)
  press-length s [] Press.go_to_root e = rw e (omega arith)
  press-length s (r ∷ rs) Press.confirm e = elim (Bool-cases (shows_decision r)) [
    | inl on ↦ rw on (omega arith)
    | inr off ↦ rw (off, e) (omega arith)
  ]
  press-length s (r ∷ rs) Press.go_back e = elim (Bool-cases (shows_decision r)) [
    | inl on ↦ rw on (omega arith)
    | inr off ↦ rw (off, e) (omega arith)
  ]
  press-length s (r ∷ rs) Press.go_to_root e = elim (Bool-cases (is_success r.submit_status)) [
    | inl on ↦ rw on (omega arith)
    | inr off ↦ rw (off, e) (omega arith)
  ]

  settle-length :
      (s : Stack C) (i : ℕ) (o : Outcome (Unit {0})) (c : Option (Review C))
      → length (settle_at c i o s).reviews ≤ length s.reviews
  unfolding settle_at
  settle-length s i o none = omega arith
  settle-length s i o (some r) = elim (Bool-cases (is_sending r.submit_status)) [
    | inl on ↦ rw on (omega (arith, length-set s.reviews i (finish_submit o r)))
    | inr off ↦ rw off (omega arith)
  ]

  -- No event of the reviews pushes another one.
  pub step-length : (s : Stack C) (e : Event) → length (step s e).reviews ≤ length s.reviews
  unfolding step
  step-length s (press b) = press-length s s.reviews b refl
  step-length s (settled i o) = settle-length s i o (get_elem? s.reviews i)
  step-length s (abandoned_settled i) = omega arith

  -- A form that is free has no review over it, and a form that is open and has none is free.
  pub free-length : (s : Stack C) → is_on_top s ≡ true → length s.reviews ≡ 0
  free-length s free = free_at s.reviews s.is_closed free
    where
      free_at : (rs : List (Review C)) (b : Bool) → no_reviews rs && not b ≡ true → length rs ≡ 0
      free_at [] b h = refl
      free_at (r ∷ rs) b h = absurd (ground (arith, h))

  pub free_of_length :
      (s : Stack C) → length s.reviews ≡ 0 → s.is_closed ≡ false → is_on_top s ≡ true
  free_of_length s empty opened = free_at s.reviews empty
    where
      free_at : (rs : List (Review C)) → length rs ≡ 0 → no_reviews rs && not s.is_closed ≡ true
      free_at [] h = ground (arith, opened)
      free_at (r ∷ rs) h = absurd (omega (arith, h))
