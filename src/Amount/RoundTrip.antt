-- ===== src/Amount/RoundTrip.antt =====
-- An amount that is printed and read again.
use reference_wallet.Base.{
  ℕ, zero, suc, ◌+◌, ◌*◌, ◌/◌, ◌%◌, ◌^◌, ◌≤◌, ◌<◌, ◌≡◌, refl, sym, ◌∙◌, ap, false, List, ◌++◌, [],
  ◌∷◌, length, arith, some,
}
use native.Mathlib.Nat.{pow-suc, pow-zero, add-zero, add-suc, div-add-mod', mod-lt, div-eq_of_lt-le}
use mathlib.Core.List.{append-nil}
use reference_wallet.Amount.Text.{
  Fraction, round_scaled, print_nat, pad, trim, take_digits, parse_float, with_fraction, with_point,
  to_locale_string,
}
use reference_wallet.Amount.Digits.{
  AllDigits, value_from, take_digits-append, print_nat-AllDigits, print_nat-value, print_nat-pos,
  pad-AllDigits, length-pad, pad-value, trim-AllDigits, trim-value,
}
use mathlib.Core.Option
use reference_wallet.Amount.{
  whole, diem_amount_to_float, fiat_to_diem_float, diem_amount_to_human_friendly,
  diem_amount_from_human_friendly, fiat_to_diem_human_friendly, fiat_from_human_friendly,
}

-- `Math.round` of an integer is that integer, also as a fraction not in lowest terms.
pub round_scaled_exact :
    (x : Fraction) (scale n : ℕ) → 0 < x.den → x.num * scale ≡ n * x.den → round_scaled x scale ≡ n
unfolding round_scaled
round_scaled_exact x scale n h e =
    div-eq_of_lt-le (2 * x.den) (omega (arith, ap (λ (t : ℕ). 2 * t) e))
      (omega (arith, ap (λ (t : ℕ). 2 * t) e))

take_digits_all :
    (v : ℕ) (cs : List ℕ) → AllDigits cs → take_digits v 0 cs ≡ (value_from v cs, 0 + length cs, [])
take_digits_all v cs h = rw (append-nil cs) at (take_digits-append v 0 cs [] h tt)

with_fraction-point :
    (v n : ℕ) (cs : List ℕ)
    → AllDigits cs
    → 1 ≤ n
    → with_fraction v n (b'.' ∷ cs) ≡ some (record { num = value_from v cs; den = 10 ^ length cs })
unfolding with_fraction
with_fraction-point v n cs h pos = ground (arith, take_digits_all v cs h)

pow-add : (b m n : ℕ) → b ^ (m + n) ≡ b ^ m * b ^ n
pow-add b m zero = rw (add-zero m, pow-zero b) (omega arith)
pow-add b m (suc n) = rw (add-suc m n, pow-suc b (m + n), pow-suc b n, pow-add b m n) (omega arith)

pow-pos : (n : ℕ) → 0 < 10 ^ n
pow-pos zero = omega arith
pow-pos (suc n) = rw (pow-suc 10 n) (omega (arith, pow-pos n))

scaled : (v l j most a : ℕ) → most ≡ l + j → v * 10 ^ j ≡ a → v * 10 ^ most ≡ a * 10 ^ l
scaled v l j most a e h = rw (e, pow-add 10 l j, ← h) (omega arith)

-- What is read from the digits of a whole number, perhaps a point, and the digits of a fraction.
parse_float-print :
    (n : ℕ) (cs : List ℕ)
    → AllDigits cs
    → parse_float (print_nat n ++ with_point cs)
      ≡ some (record { num = value_from n cs; den = 10 ^ length cs })
unfolding parse_float with_fraction
parse_float-print n [] h =
    rw (take_digits-append 0 0 (print_nat n) [] (print_nat-AllDigits n) tt)
      (ground (arith, print_nat-pos n, print_nat-value n))
parse_float-print n (c ∷ cs) h =
    rw (take_digits-append 0 0 (print_nat n) (b'.' ∷ c ∷ cs) (print_nat-AllDigits n) refl) (
      with_fraction-point (value_from 0 (print_nat n)) (0 + length (print_nat n)) (c ∷ cs) h
        (omega (arith, print_nat-pos n))
      ∙ ap (λ v. some (record { num = value_from v (c ∷ cs); den = 10 ^ length (c ∷ cs) }))
          (print_nat-value n))

-- A number with `most` decimals, printed with at least `least` and read again, is the same number
-- at every scale that has room for the decimals.
print-parse :
    (least most a : ℕ)
    → (x : Fraction) × (parse_float
          (print_nat (a / 10 ^ most) ++ with_point (trim least (pad most (a % 10 ^ most))))
        ≡ some x)
      × (0 < x.den)
      × (x.num * 10 ^ most ≡ a * x.den)
print-parse least most a =
    let digits = pad most (a % 10 ^ most) in
    let shown = trim least digits in
    let n = a / 10 ^ most in
    let (j, len, val) = trim-value n least digits in
    (
      record { num = value_from n shown; den = 10 ^ length shown },
      parse_float-print n shown (trim-AllDigits least digits (pad-AllDigits most (a % 10 ^ most))),
      pow-pos (length shown),
      scaled (value_from n shown) (length shown) j most a
          (sym (length-pad most (a % 10 ^ most)) ∙ len)
          (sym val
            ∙ pad-value n most (a % 10 ^ most) (mod-lt a (pow-pos most))
            ∙ div-add-mod' a (10 ^ most)),
    )

to_locale_string_plain :
    (least most n : ℕ) (x : Fraction)
    → round_scaled x (10 ^ most) ≡ n
    → to_locale_string least most false x
      ≡ print_nat (n / 10 ^ most) ++ with_point (trim least (pad most (n % 10 ^ most)))
unfolding to_locale_string
to_locale_string_plain least most n x h =
    ap (λ s. print_nat (s / 10 ^ most) ++ with_point (trim least (pad most (s % 10 ^ most)))) h

-- The scaled number that the text of a number is read as, at scale `scale`.
read_back :
    (least most n m scale : ℕ) (x : Fraction)
    → round_scaled x (10 ^ most) ≡ n
    → ((y : Fraction) → 0 < y.den → y.num * 10 ^ most ≡ n * y.den → y.num * scale ≡ m * y.den)
    → Option.map (λ y. round_scaled y scale) (parse_float (to_locale_string least most false x))
      ≡ some m
read_back least most n m scale x h k =
    let (y, parsed, pos, same) = print-parse least most n in
    rw (to_locale_string_plain least most n x h, parsed)
      (ap some (round_scaled_exact y scale m pos (k y pos same)))

-- A diem amount that is shown without grouping and read again is the same amount.
pub diem_round_trip :
    (a : ℕ)
    → diem_amount_from_human_friendly (diem_amount_to_human_friendly (whole a) false) ≡ some a
unfolding diem_amount_from_human_friendly diem_amount_to_human_friendly
diem_round_trip a =
    read_back 0 6 a a 1000000 (diem_amount_to_float (whole a))
      (round_scaled_exact (record { num = a / 1; den = 1000000 }) 1000000 a (omega arith)
        (omega arith))
      (λ y pos same. same)

-- A fiat amount that is shown without grouping and read again is the nearest whole number of cents,
-- so it is off by half a cent at most.
fiat_round_trip :
    (a : ℕ)
    → (r : ℕ) × (fiat_from_human_friendly (fiat_to_diem_human_friendly (whole a) false) ≡ some r)
      × (r % 10000 ≡ 0)
      × (a ≤ r + 5000)
      × (r ≤ a + 5000)
unfolding fiat_from_human_friendly fiat_to_diem_human_friendly
fiat_round_trip a =
    let cents = (a + 5000) / 10000 in
    (
      cents * 10000,
      read_back 2 2 cents (cents * 10000) 1000000 (fiat_to_diem_float (whole a)) (omega arith)
          (λ y pos same. omega (arith, same)),
      omega arith,
      omega arith,
      omega arith,
    )
