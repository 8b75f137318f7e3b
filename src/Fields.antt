-- ===== src/Fields.antt =====
-- The fields for an amount and its price that frontend/src/components/Send/SendForm.tsx and
-- Transfer/WithdrawForm.tsx, DepositForm.tsx and ConvertForm.tsx share. An empty field is `none`.
pub mod Price
mod Tests
use reference_wallet.Base.{ℕ, ◌*◌, Bool, true, false, Option, none, some, List, ◌==◌, if◌then◌else◌}
use mathlib.Core.Option
use reference_wallet.Amount.{
  whole, fiat_from_diem_float, fiat_to_diem_human_friendly, diem_amount_from_float,
  diem_amount_to_human_friendly, normalize_diem_amount,
}
use reference_wallet.Amount.Text.{Fraction, parse_float}

-- Typing in the amount: `isNaN(value) ? "" : normalizeDiemAmount(value)`.
unfoldable pub change_amount : List ℕ → Option Fraction
unfolding parse_float normalize_diem_amount
change_amount text = Option.map normalize_diem_amount (parse_float text)

-- A click empties a field that holds 0, and leaving an empty field puts 0.
unfoldable pub click_amount : Option Fraction → Option Fraction
click_amount none = none
click_amount (some x) = if x.num == 0 then none else some x

unfoldable pub blur_amount : Option Fraction → Option Fraction
blur_amount none = some (whole 0)
blur_amount (some x) = some x

unfoldable pub calc_price : Fraction → Fraction → Fraction
calc_price exchange_rate amount = record {
  num = amount.num * exchange_rate.num;
  den = amount.den * exchange_rate.den;
}

-- Division by a rate of 0 gives the denominator 0.
unfoldable pub calc_amount : Fraction → Fraction → Fraction
calc_amount exchange_rate price = record {
  num = price.num * exchange_rate.den;
  den = price.den * exchange_rate.num;
}

-- Typing in the price sets the amount; `typed` is the field's number, and `none` counts as 0.
abbrev pub or_zero : Option Fraction → Fraction
or_zero none = whole 0
or_zero (some x) = x

unfoldable pub change_price : Fraction → Option Fraction → Fraction
unfolding fiat_from_diem_float normalize_diem_amount calc_amount
change_price exchange_rate typed =
    normalize_diem_amount (calc_amount exchange_rate (whole (fiat_from_diem_float (or_zero typed))))

unfoldable pub change_price_of_conversion : Fraction → Option Fraction → Fraction
unfolding diem_amount_from_float normalize_diem_amount calc_amount
change_price_of_conversion exchange_rate typed =
    normalize_diem_amount
      (calc_amount exchange_rate (whole (diem_amount_from_float (or_zero typed))))

-- The text of the price; there is none for an amount that is empty or 0.
unfoldable pub show_price : Fraction → Option Fraction → Option (List ℕ)
unfolding calc_price fiat_to_diem_human_friendly
show_price exchange_rate none = none
show_price exchange_rate (some x) =
    if x.num == 0
    then none
    else some (fiat_to_diem_human_friendly (calc_price exchange_rate x) false)

unfoldable pub show_price_of_conversion : Fraction → Option Fraction → Option (List ℕ)
unfolding calc_price diem_amount_to_human_friendly
show_price_of_conversion exchange_rate none = none
show_price_of_conversion exchange_rate (some x) =
    if x.num == 0
    then none
    else some (diem_amount_to_human_friendly (calc_price exchange_rate x) false)
