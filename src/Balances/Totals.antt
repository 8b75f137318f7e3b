-- ===== src/Balances/Totals.antt =====
-- The exact total beside the prices of the balances, in millionths of the fiat currency.
use native.Mathlib.Nat.{
  div-mul-le_self, lt-div-mul-add, le-div_iff_mul-le, div-lt_iff_lt-mul, mul-le-mul_right,
  mul-lt-mul_of_pos_right,
}
use reference_wallet.Base.{
  ℕ, ◌+◌, ◌*◌, ◌/◌, ◌≤◌, ◌<◌, ◌≡◌, refl, Option, some, List, [], ◌∷◌, arith, length,
}
use reference_wallet.Amount.{whole}
use reference_wallet.Amount.Text.{Fraction, trunc}
use reference_wallet.Rates.{Currencies}
use reference_wallet.Balances.{
  CurrencyBalance, plus, price_of, add_price, reduce, total_fiat_balance,
}

scaled-sum :
    (a b c d p q : ℕ)
    → 0 < b
    → 0 < d
    → p * b ≤ a
    → q * d ≤ c
    → a < p * b + b
    → c < q * d + d
    → ((p + q) * (b * d) ≤ a * d + c * b) × (a * d + c * b < (p + q + 2) * (b * d))
scaled-sum a b c d p q hb hd la lc ua uc = (
  grind (arith, mul-le-mul_right d la, mul-le-mul_right b lc),
  grind (arith, mul-lt-mul_of_pos_right ua hd, mul-lt-mul_of_pos_right uc hb),
)

trunc-plus :
    (x y : Fraction)
    → 0 < x.den
    → 0 < y.den
    → (trunc x + trunc y ≤ trunc (plus x y)) × (trunc (plus x y) ≤ trunc x + trunc y + 1)
unfolding trunc
trunc-plus x y hx hy =
    let p = x.num / x.den in
    let q = y.num / y.den in
    let lx : p * x.den ≤ x.num = div-mul-le_self x.num x.den in
    let ly : q * y.den ≤ y.num = div-mul-le_self y.num y.den in
    let ux : x.num < p * x.den + x.den = lt-div-mul-add {a = x.num} {b = x.den} hx in
    let uy : y.num < q * y.den + y.den = lt-div-mul-add {a = y.num} {b = y.den} hy in
    let positive : 0 < x.den * y.den = grind (arith, mul-lt-mul_of_pos_right hx hy) in
    let (low, high) = scaled-sum x.num x.den y.num y.den p q hx hy lx ly ux uy in
    let below =
      (div-lt_iff_lt-mul {k = x.den * y.den} {x = x.num * y.den + y.num * x.den} {y = p + q + 2}
          positive).1
        high in
    (
      (le-div_iff_mul-le {k = x.den * y.den} {x = p + q} {y = x.num * y.den + y.num * x.den}
            positive).1
          low,
      omega (arith, below),
    )

abbrev pub sum_trunc : List Fraction → ℕ
sum_trunc [] = 0
sum_trunc (p ∷ ps) = trunc p + sum_trunc ps

-- The balances have these prices, which are numbers.
abbrev pub HavePrices : Currencies → List ℕ → List CurrencyBalance → List Fraction → Type 0
HavePrices currencies fiat [] [] = Unit
HavePrices currencies fiat (b ∷ bs) (p ∷ ps) =
    (price_of currencies fiat b ≡ some p) × (0 < p.den) × HavePrices currencies fiat bs ps
HavePrices currencies fiat _ _ = ⊥

-- A total between the sum of the prices and that sum with one more for each balance.
abbrev pub IsNear : ℕ → ℕ → Option Fraction → Type 0
IsNear sum count total =
    (t : Fraction) × (total ≡ some t) × (sum ≤ trunc t) × (trunc t ≤ sum + count)

module _ (currencies : Currencies) (fiat : List ℕ) where
  reduce-IsNear :
      (bs : List CurrencyBalance) (ps : List Fraction) (t : Fraction)
      → HavePrices currencies fiat bs ps
      → 0 < t.den
      → IsNear (trunc t + sum_trunc ps) (length bs) (reduce currencies fiat (some t) bs)
  unfolding reduce add_price
  reduce-IsNear [] [] t h d = (t, refl, omega arith, omega arith)
  reduce-IsNear [] (p ∷ ps) t h d = absurd h
  reduce-IsNear (b ∷ bs) [] t h d = absurd h
  reduce-IsNear (b ∷ bs) (p ∷ ps) t (priced, positive, rest) d =
      let (low, high) = trunc-plus t p d positive in
      let (u, e, below, above) =
        reduce-IsNear bs ps (plus t p) rest (grind (arith, mul-lt-mul_of_pos_right d positive)) in
      rw priced (u, e, omega (arith, low, below), omega (arith, high, above))

  -- The total is known, and in whole millionths it is at least the sum of the prices and exceeds it by at most
  -- one for each balance.
  pub total-IsNear :
      (bs : List CurrencyBalance) (ps : List Fraction)
      → HavePrices currencies fiat bs ps
      → IsNear (sum_trunc ps) (length bs) (total_fiat_balance currencies fiat bs)
  unfolding total_fiat_balance trunc
  total-IsNear bs ps h =
      let (t, e, low, high) = reduce-IsNear bs ps (whole 0) h (omega arith) in
      (t, e, omega (arith, low), omega (arith, high))
