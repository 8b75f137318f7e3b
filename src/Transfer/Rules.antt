-- ===== src/Transfer/Rules.antt =====
-- The rules of frontend/src/components/Transfer/WithdrawForm.tsx, DepositForm.tsx and ConvertForm.tsx,
-- under which react-hook-form calls `onSubmit`.
pub mod Covered
mod Tests
use text.Mathlib.Text.{◌==◌ as str_eq}
use reference_wallet.Base.{
  ℕ, Bool, true, false, not, ◌&&◌, ◌||◌, Option, none, some, List, [], ◌∷◌, String, leb,
  if◌then◌else◌,
}
use reference_wallet.Amount.{diem_amount_from_float}
use reference_wallet.Amount.Text.{Fraction}
use reference_wallet.Options.{CurrencyBalance}
use reference_wallet.Transfer.Withdraw.{WithdrawData}
use reference_wallet.Transfer.Deposit.{DepositData}
use reference_wallet.Transfer.Convert.{ConvertData}

-- `balances.find((balance) => balance.currency === selectedCurrency)`.
unfoldable pub find_balance : List CurrencyBalance → String → Option ℕ
find_balance [] currency = none
find_balance (b ∷ balances) currency =
    let rest = find_balance balances currency in
    if str_eq b.currency currency then some b.balance else rest

-- The rule `required` of a dropdown.
abbrev pub is_chosen : Option String → Bool
is_chosen none = false
is_chosen (some t) = not (str_eq t "")

abbrev pub is_present : Option ℕ → Bool
is_present none = false
is_present (some n) = true

-- The rule `min` of the amount: at least 1.
abbrev pub at_least_one : Fraction → Bool
at_least_one x = leb x.den x.num

-- The rule `validate` of the amount. Without a balance of the currency it throws, and nothing is
-- submitted.
abbrev pub is_within : ℕ → Option ℕ → Bool
is_within amount none = false
is_within amount (some balance) = leb amount balance

unfoldable pub validate_amount : List CurrencyBalance → Option String → Fraction → Bool
unfolding find_balance diem_amount_from_float
validate_amount balances none entered = true
validate_amount balances (some currency) entered =
    str_eq currency ""
    || is_within (diem_amount_from_float entered) (find_balance balances currency)

unfoldable pub accepts_amount : List CurrencyBalance → Option String → Option Fraction → Bool
unfolding validate_amount
accepts_amount balances currency none = false
accepts_amount balances currency (some x) = at_least_one x && validate_amount balances currency x

unfoldable pub withdraw_accepts : List CurrencyBalance → WithdrawData → Bool
unfolding accepts_amount
withdraw_accepts balances d =
    is_present d.funding_source
    && (is_chosen d.currency
        && (accepts_amount balances d.currency d.amount && is_chosen (some d.fiat_currency)))

abbrev pub is_amount : Option Fraction → Bool
is_amount none = false
is_amount (some x) = at_least_one x

unfoldable pub deposit_accepts : DepositData → Bool
deposit_accepts d =
    is_present d.funding_source
    && (is_chosen d.currency && (is_amount d.amount && is_chosen (some d.fiat_currency)))

-- The rule `validate` of the currency to convert to: not the currency to convert from.
abbrev pub is_other : Option String → Option String → Bool
is_other (some from) (some to) = not (str_eq to from)
is_other _ _ = true

unfoldable pub convert_accepts : List CurrencyBalance → ConvertData → Bool
unfolding accepts_amount
convert_accepts balances d =
    is_chosen d.from_currency
    && (is_chosen d.to_currency
        && (is_other d.from_currency d.to_currency
            && accepts_amount balances d.from_currency d.amount))
