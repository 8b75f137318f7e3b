-- ===== src/Mobile/Rules.antt =====
-- The rule of the amount in the mobile forms of mobile/src/screens/Send/Send.tsx and
-- Transfer/Withdraw.tsx, Deposit.tsx and Convert.tsx. An amount is the text that is typed, and `none`
-- before anything is.
pub mod Entered
use reference_wallet.Base.{
  ℕ, Bool, true, false, not, ◌&&◌, Option, none, some, List, [], ◌∷◌, leb, ◌>>=◌,
}
use reference_wallet.Amount.Text.{Fraction, parse_float}
use reference_wallet.Mobile.Amount.{diem_from_float}
use reference_wallet.Mobile.Number.{to_number}

-- `parseFloat(value) < 1`; NaN is not less.
abbrev pub is_below_one : Option Fraction → Bool
is_below_one none = false
is_below_one (some x) = not (leb x.den x.num)

-- `Number(value)`; an amount that is `undefined` is NaN.
abbrev pub number_of : Option (List ℕ) → Option Fraction
number_of none = none
number_of (some text) = to_number text

abbrev pub is_finite : Option Fraction → Bool
is_finite none = false
is_finite (some x) = true

-- `isFinite(Number(value))`, and not `parseFloat(value) < 1`.
unfoldable pub is_high_enough : Option (List ℕ) → Bool
unfolding to_number parse_float
is_high_enough entered =
    is_finite (number_of entered) && not (is_below_one (entered >>= parse_float))

-- `diemFromFloat(value) > selectedCurrencyBalance.balance`, where the multiplication takes the text's
-- `Number` and NaN is not greater. Without a balance of the currency the rule throws.
abbrev pub is_covered : Option Fraction → Option ℕ → Bool
is_covered x none = false
is_covered none (some balance) = true
is_covered (some x) (some balance) = leb (diem_from_float x) balance

-- `chosen` is what `find` finds for the chosen currency, if one is chosen.
unfoldable pub is_within_balance : Option (Option ℕ) → Option (List ℕ) → Bool
unfolding to_number diem_from_float
is_within_balance none entered = true
is_within_balance (some found) entered = is_covered (number_of entered) found
