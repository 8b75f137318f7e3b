-- ===== src/Amount/Text.antt =====
-- The parts of the language's library that frontend/src/utils/amount-precision.ts calls:
-- `Math.round`, `Math.trunc`, `Number.parseFloat` and `Number.prototype.toLocaleString`.
use reference_wallet.Base.{
  ℕ, zero, suc, ◌+◌, ◌-◌, ◌*◌, ◌/◌, ◌%◌, ◌^◌, Bool, true, false, ◌&&◌, ◌||◌, Option, none, some,
  List, ◌++◌, [], ◌∷◌, ltb, leb, ◌==◌, if◌then◌else◌, length,
}

pub record Fraction : Type 0 where
  pub num : ℕ
  pub den : ℕ

-- `Math.round(x * scale)`: the nearest integer, halves rounded up.
unfoldable pub round_scaled : Fraction → ℕ → ℕ
round_scaled x scale = (2 * (x.num * scale) + x.den) / (2 * x.den)

-- `Math.trunc(x)`.
unfoldable pub trunc : Fraction → ℕ
trunc x = x.num / x.den

abbrev pub digit : ℕ → ℕ
digit d = d + 48

abbrev pub is_digit : ℕ → Bool
is_digit c = leb 48 c && leb c 57

-- The decimal digits of a number, with fuel for their count.
unfoldable pub print_digits : ℕ → ℕ → List ℕ
print_digits zero n = []
print_digits (suc f) n =
    let more = print_digits f (n / 10) ++ digit (n % 10) ∷ [] in
    if ltb n 10 then digit n ∷ [] else more

unfoldable pub print_nat : ℕ → List ℕ
unfolding print_digits
print_nat n = print_digits (suc n) n

-- The last k decimal digits, with leading zeros.
unfoldable pub pad : ℕ → ℕ → List ℕ
pad zero n = []
pad (suc k) n = pad k (n / 10) ++ digit (n % 10) ∷ []

abbrev pub is_empty : List ℕ → Bool
is_empty [] = true
is_empty (_ ∷ _) = false

-- Trailing zeros are dropped, but the first `least` digits stay.
unfoldable pub trim : ℕ → List ℕ → List ℕ
trim least [] = []
trim least (c ∷ cs) =
    let rest = trim (least - 1) cs in
    if least == 0 && (c == 48 && is_empty rest) then [] else c ∷ rest

-- A comma before each group of three digits that more than none precede.
unfoldable pub group : List ℕ → List ℕ
group [] = []
group (c ∷ cs) =
    if length cs % 3 == 0 && leb 1 (length cs) then c ∷ b',' ∷ group cs else c ∷ group cs

abbrev pub with_point : List ℕ → List ℕ
with_point [] = []
with_point (c ∷ cs) = b'.' ∷ c ∷ cs

-- `x.toLocaleString(undefined, { minimumFractionDigits, maximumFractionDigits, useGrouping })`.
unfoldable pub to_locale_string : ℕ → ℕ → Bool → Fraction → List ℕ
unfolding print_nat pad trim group round_scaled
to_locale_string least most use_grouping x =
    let scaled = round_scaled x (10 ^ most) in
    let whole = print_nat (scaled / 10 ^ most) in
    (if use_grouping then group whole else whole)
    ++ with_point (trim least (pad most (scaled % 10 ^ most)))

-- The value of the digits at the head of a text, how many there are, and what follows.
unfoldable pub take_digits : ℕ → ℕ → List ℕ → ℕ × ℕ × List ℕ
take_digits value count [] = (value, count, [])
take_digits value count (c ∷ cs) =
    let more = take_digits (value * 10 + (c - 48)) (suc count) cs in
    if is_digit c then more else (value, count, c ∷ cs)

-- An exponent without a minus sign: "e", perhaps "+", and at least one digit.
abbrev pub exponent_digits : List ℕ → ℕ
exponent_digits cs = (take_digits 0 0 cs).0

abbrev pub after_plus : List ℕ → List ℕ
after_plus [] = []
after_plus (c ∷ cs) = if c == b'+' then cs else c ∷ cs

abbrev pub scale_up : Fraction → ℕ → Fraction
scale_up x k = record x { num = x.num * 10 ^ k }

abbrev pub scale_down : Fraction → ℕ → Fraction
scale_down x k = record x { den = x.den * 10 ^ k }

unfoldable pub with_exponent : List ℕ → Fraction → Fraction
unfolding take_digits
with_exponent [] x = x
with_exponent (c ∷ []) x = x
with_exponent (c ∷ s ∷ cs) x =
    if (c == b'e' || c == b'E')
    then (if s == b'-'
        then scale_down x (exponent_digits cs)
        else scale_up x (exponent_digits (after_plus (s ∷ cs))))
    else x

-- The fraction part, if a point follows.
unfoldable pub with_fraction : ℕ → ℕ → List ℕ → Option Fraction
unfolding take_digits with_exponent
with_fraction whole count [] = if count == 0 then none else some (record { num = whole; den = 1 })
with_fraction whole count (c ∷ cs) =
    let (value, digits, rest) = take_digits whole 0 cs in
    if c == b'.'
    then (if count + digits == 0
        then none
        else some (with_exponent rest (record { num = value; den = 10 ^ digits })))
    else (if count == 0
        then none
        else some (with_exponent (c ∷ cs) (record { num = whole; den = 1 })))

-- `Number.parseFloat` on a text with no sign and no leading space: the longest prefix that is a
-- decimal number; `none` is NaN.
unfoldable pub parse_float : List ℕ → Option Fraction
unfolding take_digits with_fraction
parse_float text = let (whole, count, rest) = take_digits 0 0 text in with_fraction whole count rest
