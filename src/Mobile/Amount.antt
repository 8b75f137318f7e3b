-- ===== src/Mobile/Amount.antt =====
-- mobile/src/utils/amount-precision.ts, over the fractions and texts of Amount/Text.antt.
use reference_wallet.Base.{ℕ, ◌^◌, ◌≡◌, refl, Bool, false, Option, List}
use mathlib.Core.Option
use reference_wallet.Amount.{VisualFormat, format, whole, diem_amount_from_float}
use reference_wallet.Amount.Text.{Fraction, round_scaled, trunc, to_locale_string, parse_float}

abbrev pub fiat_scaling_factor : ℕ
fiat_scaling_factor = 10 ^ 6

abbrev pub libra_scaling_factor : ℕ
libra_scaling_factor = 10 ^ 6

abbrev pub fiat_visual_format : VisualFormat
fiat_visual_format = record { minimum_fraction_digits = 2; maximum_fraction_digits = 2 }

abbrev pub fiat_rate_visual_format : VisualFormat
fiat_rate_visual_format = record { minimum_fraction_digits = 4; maximum_fraction_digits = 4 }

abbrev pub libra_visual_format : VisualFormat
libra_visual_format = record { minimum_fraction_digits = 0; maximum_fraction_digits = 6 }

unfoldable pub fiat_from_float : Fraction → ℕ
unfolding round_scaled
fiat_from_float amount = round_scaled amount fiat_scaling_factor

unfoldable pub fiat_to_float : Fraction → Fraction
unfolding trunc
fiat_to_float amount = record { num = trunc amount; den = fiat_scaling_factor }

unfoldable pub fiat_to_human_friendly : Fraction → Bool → List ℕ
unfolding to_locale_string fiat_to_float
fiat_to_human_friendly amount use_grouping =
    format fiat_visual_format use_grouping (fiat_to_float amount)

unfoldable pub fiat_to_human_friendly_rate : Fraction → List ℕ
unfolding to_locale_string fiat_to_float
fiat_to_human_friendly_rate amount = format fiat_rate_visual_format false (fiat_to_float amount)

-- `none` is NaN.
unfoldable pub fiat_from_human_friendly : List ℕ → Option ℕ
unfolding parse_float fiat_from_float
fiat_from_human_friendly amount = Option.map fiat_from_float (parse_float amount)

unfoldable pub diem_from_float : Fraction → ℕ
unfolding round_scaled
diem_from_float amount = round_scaled amount libra_scaling_factor

unfoldable pub diem_to_float : Fraction → Fraction
unfolding trunc
diem_to_float amount = record { num = trunc amount; den = libra_scaling_factor }

unfoldable pub diem_to_human_friendly : Fraction → Bool → List ℕ
unfolding to_locale_string diem_to_float
diem_to_human_friendly amount use_grouping =
    format libra_visual_format use_grouping (diem_to_float amount)

unfoldable pub diem_from_human_friendly : List ℕ → Option ℕ
unfolding parse_float diem_from_float
diem_from_human_friendly amount = Option.map diem_from_float (parse_float amount)

unfoldable pub normalize_diem : Fraction → Fraction
unfolding diem_from_float diem_to_float
normalize_diem amount = diem_to_float (whole (diem_from_float amount))

-- The copies agree with frontend/src/utils/amount-precision.ts.
pub diem_from_float-Same : (x : Fraction) → diem_from_float x ≡ diem_amount_from_float x
unfolding diem_from_float diem_amount_from_float
diem_from_float-Same x = refl
