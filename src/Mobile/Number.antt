-- ===== src/Mobile/Number.antt =====
-- `Number(text)` of the language, on texts with no sign, space or "0x" in front.
use reference_wallet.Base.{
  ℕ, ◌+◌, Bool, true, not, ◌&&◌, ◌||◌, Option, none, some, List, [], ◌∷◌, ◌==◌, if◌then◌else◌,
}
use reference_wallet.Amount.{whole}
use reference_wallet.Amount.Text.{Fraction, take_digits, is_empty, parse_float}

-- Digits, at least one, and no more.
abbrev pub only_digits : List ℕ → Bool
only_digits cs = let (value, count, rest) = take_digits 0 0 cs in not (count == 0) && is_empty rest

abbrev pub after_sign : List ℕ → List ℕ
after_sign [] = []
after_sign (c ∷ cs) = if c == b'+' || c == b'-' then cs else c ∷ cs

abbrev pub is_exponent : List ℕ → Bool
is_exponent [] = true
is_exponent (c ∷ cs) = (c == b'e' || c == b'E') && only_digits (after_sign cs)

abbrev pub is_decimal_from : ℕ → List ℕ → Bool
is_decimal_from count [] = not (count == 0)
is_decimal_from count (c ∷ cs) =
    let (value, digits, rest) = take_digits 0 0 cs in
    if c == b'.'
    then not (count + digits == 0) && is_exponent rest
    else not (count == 0) && is_exponent (c ∷ cs)

-- The whole text is a decimal number.
unfoldable pub is_decimal : List ℕ → Bool
unfolding take_digits
is_decimal text = let (value, count, rest) = take_digits 0 0 text in is_decimal_from count rest

-- `none` is NaN; the empty text is 0.
unfoldable pub to_number : List ℕ → Option Fraction
unfolding is_decimal parse_float
to_number [] = some (whole 0)
to_number (c ∷ cs) = if is_decimal (c ∷ cs) then parse_float (c ∷ cs) else none
