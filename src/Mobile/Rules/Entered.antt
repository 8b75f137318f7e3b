-- ===== src/Mobile/Rules/Entered.antt =====
-- The amounts that the rule of the mobile forms accepts.
use reference_wallet.Base.{
  ℕ, ◌≤◌, ◌≡◌, ◌⊎◌, ◌↔◌, inl, inr, refl, true, ◌&&◌, some, List, [], ◌∷◌, arith, Option-cases,
  Bool-cases,
}
use reference_wallet.Amount.Text.{Fraction, parse_float}
use reference_wallet.Mobile.Amount.{diem_from_float}
use reference_wallet.Mobile.Number.{to_number, is_decimal}
use reference_wallet.Mobile.Rules.{is_high_enough, is_within_balance}

-- The text is a number of at least 1 whose amount the balance covers.
pub record IsEntered (balance : ℕ) (text : List ℕ) : Type 0 where
  pub value : Fraction
  pub parsed : parse_float text ≡ some value
  pub as_number : to_number text ≡ some value
  pub at_least_one : value.den ≤ value.num
  pub covered : diem_from_float value ≤ balance

to_number-parse_float :
    (c : ℕ) (cs : List ℕ) (x : Fraction)
    → to_number (c ∷ cs) ≡ some x
    → parse_float (c ∷ cs) ≡ some x
unfolding to_number
to_number-parse_float c cs x e = elim (Bool-cases (is_decimal (c ∷ cs))) [
  | inl on ↦ ground (arith, on, e)
  | inr off ↦ absurd (ground (arith, off, e))
]

pub empty_accepted :
    (balance : ℕ)
    → is_high_enough (some []) && is_within_balance (some (some balance)) (some []) ≡ true
unfolding is_high_enough is_within_balance to_number parse_float diem_from_float
empty_accepted balance = ground arith

accepted-IsEntered :
    (balance : ℕ) (c : ℕ) (cs : List ℕ)
    → is_high_enough (some (c ∷ cs)) && is_within_balance (some (some balance)) (some (c ∷ cs))
      ≡ true
    → IsEntered balance (c ∷ cs)
unfolding is_high_enough is_within_balance
accepted-IsEntered balance c cs h = elim (Option-cases (to_number (c ∷ cs))) [
  | inl nan ↦ absurd (ground (arith, nan, h))
  | inr (x, e) ↦
      let p = to_number-parse_float c cs x e in
      record {
        value = x;
        parsed = p;
        as_number = e;
        at_least_one = ground (arith, e, p, h);
        covered = ground (arith, e, p, h);
      }
]

entered-accepted :
    (balance : ℕ) (text : List ℕ)
    → IsEntered balance text
    → is_high_enough (some text) && is_within_balance (some (some balance)) (some text) ≡ true
unfolding is_high_enough is_within_balance
entered-accepted balance text h =
    rw (h.as_number, h.parsed) (ground (arith, h.at_least_one, h.covered))

-- With a balance of the chosen currency, the rule accepts the empty text and otherwise just the texts
-- of a number of at least 1 that the balance covers.
pub IsEntered-iff :
    (balance : ℕ) (text : List ℕ)
    → (is_high_enough (some text) && is_within_balance (some (some balance)) (some text) ≡ true)
      ↔ ((text ≡ []) ⊎ IsEntered balance text)
IsEntered-iff balance [] = (λ h. inl refl, λ c. empty_accepted balance)
IsEntered-iff balance (c ∷ cs) = (λ h. inr (accepted-IsEntered balance c cs h), accepted)
  where
    accepted :
        (c ∷ cs ≡ []) ⊎ IsEntered balance (c ∷ cs)
        → is_high_enough (some (c ∷ cs)) && is_within_balance (some (some balance)) (some (c ∷ cs))
          ≡ true
    accepted (inl e) = absurd (ground (arith, e))
    accepted (inr h) = entered-accepted balance (c ∷ cs) h
