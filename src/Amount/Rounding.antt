-- ===== src/Amount/Rounding.antt =====
-- Conversions to the fixed-point format, and the grouping of the digits shown.
use reference_wallet.Base.{
  ℕ, ◌+◌, ◌*◌, ◌/◌, ◌%◌, ◌^◌, ◌≤◌, ◌<◌, ◌≡◌, refl, ◌∙◌, ap, true, false, List, ◌++◌, [], ◌∷◌, ◌==◌,
  if◌then◌else◌, arith,
}
use mathlib.Core.Path.{ap₂}
use native.Mathlib.Nat.{div-mul-le_self, lt-div-mul-add}
use reference_wallet.Amount.Text.{
  Fraction, round_scaled, group, with_point, trim, pad, print_nat, to_locale_string,
}
use reference_wallet.Amount.{
  diem_amount_to_human_friendly, fiat_to_diem_human_friendly, fiat_to_diem_float,
  diem_amount_from_float, diem_amount_to_float, normalize_diem_amount, diem_scaling_factor,
}
use reference_wallet.Amount.Digits.{AllDigits, print_nat-AllDigits, trim-AllDigits, pad-AllDigits}

-- Half a unit at most is lost by `Math.round`.
pub diem_amount_nearest :
    (x : Fraction)
    → 0 < x.den
    → (2 * (diem_amount_from_float x * x.den) ≤ 2 * (x.num * diem_scaling_factor) + x.den)
      × (2 * (x.num * diem_scaling_factor) < 2 * (diem_amount_from_float x * x.den) + x.den)
unfolding diem_amount_from_float
diem_amount_nearest x h =
    let top = 2 * (x.num * diem_scaling_factor) + x.den in
    let low = div-mul-le_self top (2 * x.den) in
    let high = lt-div-mul-add {a = top} {b = 2 * x.den} (omega arith) in
    (omega (arith, low), omega (arith, high))

-- Normalising a decimal fraction a second time changes nothing, and the result has the fixed
-- point's denominator.
normalize_idempotent :
    (x : Fraction)
    → (normalize_diem_amount (normalize_diem_amount x) ≡ normalize_diem_amount x)
      × ((normalize_diem_amount x).den ≡ diem_scaling_factor)
unfolding normalize_diem_amount
normalize_idempotent x = (ground arith, refl)

abbrev pub ungroup : List ℕ → List ℕ
ungroup [] = []
ungroup (c ∷ cs) = if c == b',' then ungroup cs else c ∷ ungroup cs

pub ungroup-group : (cs : List ℕ) → AllDigits cs → ungroup (group cs) ≡ cs
unfolding group
ungroup-group [] h = refl
ungroup-group (c ∷ cs) (d, h) = ground (arith, ungroup-group cs h)

ungroup-append : (cs ds : List ℕ) → ungroup (cs ++ ds) ≡ ungroup cs ++ ungroup ds
ungroup-append [] ds = refl
ungroup-append (c ∷ cs) ds = ground (arith, ungroup-append cs ds)

ungroup_digits : (cs : List ℕ) → AllDigits cs → ungroup cs ≡ cs
ungroup_digits [] h = refl
ungroup_digits (c ∷ cs) (d, h) = ground (arith, ungroup_digits cs h)

ungroup-with_point : (cs : List ℕ) → AllDigits cs → ungroup (with_point cs) ≡ with_point cs
ungroup-with_point [] h = refl
ungroup-with_point (c ∷ cs) h = ap (λ ds. b'.' ∷ ds) (ungroup_digits (c ∷ cs) h)

ungroup-to_locale_string :
    (least most : ℕ) (x : Fraction)
    → ungroup (to_locale_string least most true x) ≡ to_locale_string least most false x
unfolding to_locale_string
ungroup-to_locale_string least most x =
    let n = round_scaled x (10 ^ most) in
    let digits = trim least (pad most (n % 10 ^ most)) in
    ungroup-append (group (print_nat (n / 10 ^ most))) (with_point digits)
    ∙ ap₂ (λ cs ds. cs ++ ds)
        (ungroup-group (print_nat (n / 10 ^ most)) (print_nat-AllDigits (n / 10 ^ most)))
        (ungroup-with_point digits
          (trim-AllDigits least (pad most (n % 10 ^ most)) (pad-AllDigits most (n % 10 ^ most))))

-- Grouping only inserts commas: without them the grouped text of a diem amount, and that of a fiat
-- amount, is the text that is not grouped.
ungroup_human_friendly :
    (x : Fraction)
    → (ungroup (diem_amount_to_human_friendly x true) ≡ diem_amount_to_human_friendly x false)
      × (ungroup (fiat_to_diem_human_friendly x true) ≡ fiat_to_diem_human_friendly x false)
unfolding diem_amount_to_human_friendly fiat_to_diem_human_friendly
ungroup_human_friendly x = (
  ungroup-to_locale_string 0 6 (diem_amount_to_float x),
  ungroup-to_locale_string 2 2 (fiat_to_diem_float x),
)
