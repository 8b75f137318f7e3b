-- ===== src/Admin/Users/Order.antt =====
-- The order of the list of users.
use mathlib.Core.List.{Perm}
use mathlib.Core.List.Perm
use reference_wallet.Base.{ℕ, ◌≡◌, refl, true, false, List, [], ◌∷◌, arith, Bool-cases, inl, inr}
use reference_wallet.Send.Intents.{text_eq}
use reference_wallet.Admin.Users.{User, text_gt, comes_after, insert, sort_users}

text_gt_asymm : (s t : List ℕ) → text_gt s t ≡ true → text_gt t s ≡ false
unfolding text_gt
text_gt_asymm [] t h = absurd (ground (arith, h))
text_gt_asymm (c ∷ cs) [] h = refl
text_gt_asymm (c ∷ cs) (d ∷ ds) h = ground (arith, h, text_gt_asymm cs ds)

text_eq_comm : (s t : List ℕ) → text_eq s t ≡ text_eq t s
unfolding text_eq
text_eq_comm [] [] = refl
text_eq_comm [] (d ∷ ds) = refl
text_eq_comm (c ∷ cs) [] = refl
text_eq_comm (c ∷ cs) (d ∷ ds) = ground (arith, text_eq_comm cs ds)

comes_after_asymm : (a b : User) → comes_after a b ≡ true → comes_after b a ≡ false
unfolding comes_after
comes_after_asymm a b h = ground (
  arith,
  h,
  text_eq_comm a.last_name b.last_name,
  text_eq_comm a.first_name b.first_name,
  text_gt_asymm a.last_name b.last_name,
  text_gt_asymm a.first_name b.first_name,
  text_gt_asymm a.username b.username,
)

-- No user comes after the next one.
abbrev pub Follows : User → List User → Type 0
Follows u [] = Unit
Follows u (v ∷ vs) = comes_after u v ≡ false

abbrev pub IsSorted : List User → Type 0
IsSorted [] = Unit
IsSorted (u ∷ us) = Follows u us × IsSorted us

insert-Follows :
    (u v : User) (vs : List User) → comes_after u v ≡ true → Follows v vs → Follows v (insert u vs)
unfolding insert
insert-Follows u v [] after h = comes_after_asymm u v after
insert-Follows u v (w ∷ ws) after h = elim (Bool-cases (comes_after u w)) [
  | inl on ↦ rw on h
  | inr off ↦ rw off (comes_after_asymm u v after)
]

insert-IsSorted : (u : User) (vs : List User) → IsSorted vs → IsSorted (insert u vs)
unfolding insert
insert-IsSorted u [] h = (tt, tt)
insert-IsSorted u (v ∷ vs) (first, rest) = elim (Bool-cases (comes_after u v)) [
  | inl on ↦ rw on (insert-Follows u v vs on first, insert-IsSorted u vs rest)
  | inr off ↦ rw off (off, (first, rest))
]

insert-perm : (u : User) (vs : List User) → Perm (insert u vs) (u ∷ vs)
unfolding insert
insert-perm u [] = Perm.refl (u ∷ [])
insert-perm u (v ∷ vs) = elim (Bool-cases (comes_after u v)) [
  | inl on ↦ rw on (Perm.trans (Perm.cons v (insert-perm u vs)) (Perm.swap u v vs))
  | inr off ↦ rw off (Perm.refl (u ∷ v ∷ vs))
]

-- The list shows the users that the backend has listed, each as often as it is listed, by last name, then
-- first name, then user name: none comes after the next one, and of two users at most one comes after
-- the other.
sort_users-IsSorted :
    (us : List User)
    → IsSorted (sort_users us)
      × Perm (sort_users us) us
      × ((a b : User) → comes_after a b ≡ true → comes_after b a ≡ false)
unfolding sort_users
sort_users-IsSorted [] = (tt, Perm.refl [], comes_after_asymm)
sort_users-IsSorted (u ∷ us) =
    let (sorted, perm, asymm) = sort_users-IsSorted us in
    (
      insert-IsSorted u (sort_users us) sorted,
      Perm.trans (insert-perm u (sort_users us)) (Perm.cons u perm),
      asymm,
    )
