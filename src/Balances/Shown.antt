-- ===== src/Balances/Shown.antt =====
-- The total and the prices as TotalBalance and BalancesList show them: rounded to hundredths.
use mathlib.Core.List
use mathlib.Core.Path.{ap₂}
use native.Mathlib.Nat.{div-mul-le_self, lt-div-mul-add}
use reference_wallet.Base.{
  ℕ, ◌+◌, ◌*◌, ◌/◌, ◌%◌, ◌≤◌, ◌<◌, ◌≡◌, refl, ap, ◌∙◌, sym, true, Option, some, List, [], ◌∷◌, ◌++◌,
  arith, length,
}
use reference_wallet.Amount.{fiat_to_diem_float, fiat_to_diem_human_friendly}
use reference_wallet.Amount.Text.{
  Fraction, trunc, round_scaled, group, with_point, trim, pad, print_nat, to_locale_string,
}
use reference_wallet.Amount.RoundTrip.{round_scaled_exact}
use reference_wallet.Rates.{Currencies}
use reference_wallet.Balances.{CurrencyBalance, show_balances, show_total}
use reference_wallet.Balances.Totals.{sum_trunc, HavePrices, total-IsNear}

-- The text of a number of hundredths, with its two decimals and its commas.
abbrev pub cents_text : ℕ → List ℕ
cents_text n = to_locale_string 2 2 true (record { num = n; den = 100 })

abbrev pub sum_cents : List ℕ → ℕ
sum_cents [] = 0
sum_cents (c ∷ cs) = c + sum_cents cs

-- The hundredths that are shown of a price.
abbrev cents : Fraction → ℕ
cents x = round_scaled (record { num = trunc x; den = 1000000 }) 100

abbrev text_of : ℕ → List ℕ
text_of n = group (print_nat (n / 100)) ++ with_point (trim 2 (pad 2 (n % 100)))

to_locale_string-text_of :
    (x : Fraction) (n : ℕ) → round_scaled x 100 ≡ n → to_locale_string 2 2 true x ≡ text_of n
unfolding to_locale_string
to_locale_string-text_of x n e = ap text_of e

fiat-cents_text : (x : Fraction) → fiat_to_diem_human_friendly x true ≡ cents_text (cents x)
unfolding fiat_to_diem_human_friendly fiat_to_diem_float trunc
fiat-cents_text x =
    to_locale_string-text_of (fiat_to_diem_float x) (cents x) refl
    ∙ sym (
        to_locale_string-text_of (record { num = cents x; den = 100 }) (cents x)
          (round_scaled_exact (record { num = cents x; den = 100 }) 100 (cents x) (omega arith)
            refl))

-- Half a hundredth is five thousand millionths.
cents_near :
    (x : Fraction) → (10000 * cents x ≤ trunc x + 5000) × (trunc x < 10000 * cents x + 5000)
unfolding round_scaled
cents_near x =
    let low = div-mul-le_self (2 * (trunc x * 100) + 1000000) 2000000 in
    let high = lt-div-mul-add {a = 2 * (trunc x * 100) + 1000000} {b = 2000000} (omega arith) in
    (omega (arith, low), omega (arith, high))

abbrev all_cents : List Fraction → List ℕ
all_cents [] = []
all_cents (p ∷ ps) = cents p ∷ all_cents ps

all_cents_near :
    (currencies : Currencies) (fiat : List ℕ) (bs : List CurrencyBalance) (ps : List Fraction)
    → HavePrices currencies fiat bs ps
    → (10000 * sum_cents (all_cents ps) ≤ sum_trunc ps + 5000 * length bs)
      × (sum_trunc ps ≤ 10000 * sum_cents (all_cents ps) + 4999 * length bs)
all_cents_near currencies fiat [] [] h = (omega arith, omega arith)
all_cents_near currencies fiat [] (p ∷ ps) h = absurd h
all_cents_near currencies fiat (b ∷ bs) [] h = absurd h
all_cents_near currencies fiat (b ∷ bs) (p ∷ ps) (priced, positive, rest) =
    let (low, high) = all_cents_near currencies fiat bs ps rest in
    let (below, above) = cents_near p in (omega (arith, low, below), omega (arith, high, above))

-- The price shown at each balance.
abbrev pub prices_shown : Currencies → List ℕ → List CurrencyBalance → List (Option (List ℕ))
prices_shown currencies fiat bs = List.map (λ s. s.1) (show_balances currencies fiat bs)

prices_shown-all_cents :
    (currencies : Currencies) (fiat : List ℕ) (bs : List CurrencyBalance) (ps : List Fraction)
    → HavePrices currencies fiat bs ps
    → prices_shown currencies fiat bs ≡ List.map (λ c. some (cents_text c)) (all_cents ps)
unfolding show_balances
prices_shown-all_cents currencies fiat [] [] h = refl
prices_shown-all_cents currencies fiat [] (p ∷ ps) h = absurd h
prices_shown-all_cents currencies fiat (b ∷ bs) [] h = absurd h
prices_shown-all_cents currencies fiat (b ∷ bs) (p ∷ ps) (priced, positive, rest) = rw priced (
    ap₂ (λ t ts. some t ∷ ts) (fiat-cents_text p)
      (prices_shown-all_cents currencies fiat bs ps rest))

-- When the rates of all balances are known, each balance shows its price and the page shows the total, all
-- as whole hundredths of the fiat currency; for `n` balances the total shown exceeds the sum of the prices
-- shown by at most `(n + 1) / 2` hundredths and falls short of it by at most `n / 2`.
pub show_total_near :
    (currencies : Currencies) (fiat : List ℕ) (bs : List CurrencyBalance) (ps : List Fraction)
    → HavePrices currencies fiat bs ps
    → (cs : List ℕ) × (total : ℕ) × (prices_shown currencies fiat bs
        ≡ List.map (λ c. some (cents_text c)) cs)
      × (show_total currencies fiat bs ≡ some (cents_text total))
      × (2 * total ≤ 2 * sum_cents cs + length bs + 1)
      × (2 * sum_cents cs ≤ 2 * total + length bs)
unfolding show_total
show_total_near currencies fiat bs ps h =
    let (t, e, low, high) = total-IsNear currencies fiat bs ps h in
    let (below, above) = all_cents_near currencies fiat bs ps h in
    let (t_below, t_above) = cents_near t in
    (
      all_cents ps,
      cents t,
      prices_shown-all_cents currencies fiat bs ps h,
      rw e (ap some (fiat-cents_text t)),
      omega (arith, low, high, below, above, t_below, t_above),
      omega (arith, low, high, below, above, t_below, t_above),
    )
