-- ===== src/Settings/LastFour.antt =====
-- The digits that the name of a payment method shows.
use reference_wallet.Base.{
  ℕ, ◌+◌, ◌*◌, ◌%◌, ◌≤◌, ◌≡◌, ◌∙◌, refl, sym, ap, subst, ◌⊎◌, inl, inr, false, List, [], ◌∷◌, ◌++◌,
  arith, length, leb, Bool-cases,
}
use reference_wallet.Amount.Text.{print_nat}
use reference_wallet.Amount.Digits.{
  AllDigits, value_from, value_from-append, print_nat-AllDigits, print_nat-value,
}
use reference_wallet.Settings.Forms.{slice_last}

-- A text split at the last `k` of its characters.
record IsSplit (k : ℕ) (text pre last : List ℕ) : Type 0 where
  whole : pre ++ last ≡ text
  short : length last ≤ k
  full : (pre ≡ []) ⊎ (length last ≡ k)

filled :
    (k c : ℕ) (cs pre last : List ℕ)
    → leb (length (c ∷ cs)) k ≡ false
    → IsSplit k cs pre last
    → length last ≡ k
filled k c cs pre last long h = elim (h.full) [
  | inl empty ↦
      let same : last ≡ cs = subst (λ (p : List ℕ). p ++ last ≡ cs) empty h.whole in
      ground (arith, ap length same, h.short, long)
  | inr full ↦ full
]

slice_last-IsSplit :
    (k : ℕ) (text : List ℕ) → (pre : List ℕ) × IsSplit k text pre (slice_last k text)
unfolding slice_last
slice_last-IsSplit k [] = ([], record { whole = refl; short = omega arith; full = inl refl })
slice_last-IsSplit k (c ∷ cs) = elim (Bool-cases (leb (length (c ∷ cs)) k)) [
  | inl fits ↦ rw fits ([], record { whole = refl; short = ground (arith, fits); full = inl refl })
  | inr long ↦
      let (pre, h) = slice_last-IsSplit k cs in
      rw long (
        c ∷ pre,
        record {
          whole = ap (◌∷◌ c) h.whole;
          short = h.short;
          full = inr (filled k c cs pre (slice_last k cs) long h);
        },
      )
]

-- Four digits, after those of a number.
four-value :
    (v : ℕ) (ds : List ℕ)
    → length ds ≡ 4
    → AllDigits ds
    → value_from v ds ≡ v * 10000 + value_from 0 ds
four-value v [] e h = absurd (omega (arith, e))
four-value v (a ∷ []) e h = absurd (omega (arith, e))
four-value v (a ∷ b ∷ []) e h = absurd (omega (arith, e))
four-value v (a ∷ b ∷ c ∷ []) e h = absurd (omega (arith, e))
four-value v (a ∷ b ∷ c ∷ d ∷ []) e h = omega arith
four-value v (a ∷ b ∷ c ∷ d ∷ x ∷ xs) e h = absurd (omega (arith, e))

few-value : (ds : List ℕ) → length ds ≤ 4 → AllDigits ds → value_from 0 ds ≤ 9999
few-value [] e h = omega arith
few-value (a ∷ []) e (h, u) = omega (arith, h.0, h.1)
few-value (a ∷ b ∷ []) e (h, (i, u)) = omega (arith, h.0, h.1, i.0, i.1)
few-value (a ∷ b ∷ c ∷ []) e (h, (i, (j, u))) = omega (arith, h.0, h.1, i.0, i.1, j.0, j.1)
few-value (a ∷ b ∷ c ∷ d ∷ []) e (h, (i, (j, (k, u)))) =
    omega (arith, h.0, h.1, i.0, i.1, j.0, j.1, k.0, k.1)
few-value (a ∷ b ∷ c ∷ d ∷ x ∷ xs) e h = absurd (omega (arith, e))

All-split : (pre last : List ℕ) → AllDigits (pre ++ last) → AllDigits last
All-split [] last h = h
All-split (c ∷ cs) last (d, h) = All-split cs last h

-- The digits that the name of a payment method shows are the last four of the number of the card or the
-- account, and at most four: read as a number, they are its remainder by ten thousand.
slice_last-value :
    (n : ℕ)
    → (value_from 0 (slice_last 4 (print_nat n)) ≡ n % 10000)
      × (length (slice_last 4 (print_nat n)) ≤ 4)
slice_last-value n =
    let (pre, h) = slice_last-IsSplit 4 (print_nat n) in
    let last = slice_last 4 (print_nat n) in
    let digits : AllDigits last =
      All-split pre last (subst AllDigits (sym h.whole) (print_nat-AllDigits n)) in
    let total : value_from (value_from 0 pre) last ≡ n =
      sym (value_from-append 0 pre last) ∙ ap (value_from 0) h.whole ∙ print_nat-value n in
    let small = few-value last h.short digits in
    (
      elim (h.full) [
        | inl empty ↦
            let same : value_from 0 last ≡ n =
              subst (λ (p : List ℕ). value_from (value_from 0 p) last ≡ n) empty total in
            omega (arith, same, small)
        | inr full ↦ omega (arith, four-value (value_from 0 pre) last full digits, total, small)
      ],
      h.short,
    )
