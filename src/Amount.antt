-- ===== src/Amount.antt =====
-- frontend/src/utils/amount-precision.ts: fixed-point amounts, decimal fractions and their texts.
-- A number of the source is a fraction of two natural numbers: amounts are not negative, and the
-- rounding of IEEE doubles is left out. A text is the list of its character codes, and the locale
-- of `toLocaleString` is en-US.
pub mod Text
pub mod Digits
pub mod RoundTrip
pub mod Rounding
mod Tests
use reference_wallet.Base.{ℕ, ◌*◌, ◌^◌, Bool, false, Option, none, some, List}
use mathlib.Core.Option
use Text.{Fraction, round_scaled, trunc, to_locale_string, parse_float}

abbrev pub fiat_max_fraction_digits : ℕ
fiat_max_fraction_digits = 6

abbrev pub fiat_scaling_factor : ℕ
fiat_scaling_factor = 10 ^ fiat_max_fraction_digits

abbrev pub diem_max_fraction_digits : ℕ
diem_max_fraction_digits = 6

abbrev pub diem_scaling_factor : ℕ
diem_scaling_factor = 10 ^ diem_max_fraction_digits

-- An integer of the source.
abbrev pub whole : ℕ → Fraction
whole n = record { num = n; den = 1 }

-- `minimumFractionDigits` and `maximumFractionDigits`.
pub record VisualFormat : Type 0 where
  pub minimum_fraction_digits : ℕ
  pub maximum_fraction_digits : ℕ

abbrev pub fiat_visual_format : VisualFormat
fiat_visual_format = record { minimum_fraction_digits = 2; maximum_fraction_digits = 2 }

abbrev pub fiat_rate_visual_format : VisualFormat
fiat_rate_visual_format = record { minimum_fraction_digits = 4; maximum_fraction_digits = 4 }

abbrev pub diem_visual_format : VisualFormat
diem_visual_format = record {
  minimum_fraction_digits = 0;
  maximum_fraction_digits = diem_max_fraction_digits;
}

abbrev pub format : VisualFormat → Bool → Fraction → List ℕ
format v use_grouping =
    to_locale_string v.minimum_fraction_digits v.maximum_fraction_digits use_grouping

unfoldable pub fiat_from_diem_float : Fraction → ℕ
unfolding round_scaled
fiat_from_diem_float amount = round_scaled amount fiat_scaling_factor

unfoldable pub fiat_to_diem_float : Fraction → Fraction
unfolding trunc
fiat_to_diem_float amount = record { num = trunc amount; den = fiat_scaling_factor }

unfoldable pub fiat_to_diem_human_friendly : Fraction → Bool → List ℕ
unfolding to_locale_string fiat_to_diem_float
fiat_to_diem_human_friendly amount use_grouping =
    format fiat_visual_format use_grouping (fiat_to_diem_float amount)

unfoldable pub fiat_to_human_friendly_rate : Fraction → List ℕ
unfolding to_locale_string fiat_to_diem_float
fiat_to_human_friendly_rate amount =
    format fiat_rate_visual_format false (fiat_to_diem_float amount)

-- `none` is NaN.
unfoldable pub fiat_from_human_friendly : List ℕ → Option ℕ
unfolding parse_float fiat_from_diem_float
fiat_from_human_friendly amount = Option.map fiat_from_diem_float (parse_float amount)

unfoldable pub diem_amount_from_float : Fraction → ℕ
unfolding round_scaled
diem_amount_from_float amount = round_scaled amount diem_scaling_factor

unfoldable pub diem_amount_to_float : Fraction → Fraction
unfolding trunc
diem_amount_to_float amount = record { num = trunc amount; den = diem_scaling_factor }

unfoldable pub diem_amount_to_human_friendly : Fraction → Bool → List ℕ
unfolding to_locale_string diem_amount_to_float
diem_amount_to_human_friendly amount use_grouping =
    format diem_visual_format use_grouping (diem_amount_to_float amount)

unfoldable pub diem_amount_from_human_friendly : List ℕ → Option ℕ
unfolding parse_float diem_amount_from_float
diem_amount_from_human_friendly amount = Option.map diem_amount_from_float (parse_float amount)

unfoldable pub normalize_diem_amount : Fraction → Fraction
unfolding diem_amount_from_float diem_amount_to_float
normalize_diem_amount amount = diem_amount_to_float (whole (diem_amount_from_float amount))
