-- ===== src/Balances.antt =====
-- What the pages show of an account: frontend/src/components/TotalBalance.tsx, Balance.tsx and
-- BalancesList.tsx, and mobile/src/components/TotalBalance.tsx, CurrencyBalance.tsx and BalancesList.tsx. A
-- price is `none` where a rate is missing, for which the components throw or show NaN; the floating-point
-- numbers are fractions. The order of the mobile list is left out.
pub mod Totals
pub mod Shown
mod Tests
use mathlib.Core.Option
use reference_wallet.Base.{
  ℕ, ◌+◌, ◌*◌, Bool, true, false, Option, none, some, List, [], ◌∷◌, if◌then◌else◌, ◌>>=◌,
}
use reference_wallet.Amount.{
  whole, diem_amount_to_float, diem_amount_to_human_friendly, fiat_to_diem_human_friendly,
}
use reference_wallet.Amount.Text.{Fraction}
use reference_wallet.Rates.{Currencies, rate_of}
use reference_wallet.Send.Intents.{text_eq}

-- `CurrencyBalance` of the interfaces.
pub record CurrencyBalance : Type 0 where
  pub currency : List ℕ
  pub balance : ℕ

abbrev pub times : Fraction → Fraction → Fraction
times x y = record { num = x.num * y.num; den = x.den * y.den }

abbrev pub plus : Fraction → Fraction → Fraction
plus x y = record { num = x.num * y.den + y.num * x.den; den = x.den * y.den }

-- `diemAmountToFloat(balance) * exchangeRate`.
unfoldable pub price_of : Currencies → List ℕ → CurrencyBalance → Option Fraction
unfolding diem_amount_to_float
price_of currencies fiat b =
    Option.map (times (diem_amount_to_float (whole b.balance))) (rate_of b.currency fiat currencies)

-- The function of `balances.reduce`, and the whole.
unfoldable pub add_price : Currencies → List ℕ → Option Fraction → CurrencyBalance → Option Fraction
unfolding price_of
add_price currencies fiat total b = total >>= λ t. Option.map (plus t) (price_of currencies fiat b)

unfoldable pub reduce :
    Currencies → List ℕ → Option Fraction → List CurrencyBalance → Option Fraction
unfolding add_price
reduce currencies fiat total [] = total
reduce currencies fiat total (b ∷ bs) =
    reduce currencies fiat (add_price currencies fiat total b) bs

unfoldable pub total_fiat_balance : Currencies → List ℕ → List CurrencyBalance → Option Fraction
unfolding reduce
total_fiat_balance currencies fiat balances = reduce currencies fiat (some (whole 0)) balances

-- `balances.find(…)`.
unfoldable pub find_balance : List ℕ → List CurrencyBalance → Option CurrencyBalance
unfolding text_eq
find_balance currency [] = none
find_balance currency (b ∷ bs) =
    let rest = find_balance currency bs in if text_eq b.currency currency then some b else rest

-- What `Balance` shows: the amount, and the price.
unfoldable pub show_balance :
    Currencies → List ℕ → List ℕ → List CurrencyBalance → Option (List ℕ × Option (List ℕ))
unfolding find_balance price_of diem_amount_to_human_friendly fiat_to_diem_human_friendly
show_balance currencies fiat currency balances =
    Option.map
      (λ (b : CurrencyBalance). (
        diem_amount_to_human_friendly (whole b.balance) true,
        Option.map (λ p. fiat_to_diem_human_friendly p true) (price_of currencies fiat b),
      ))
      (find_balance currency balances)

-- What the list shows at each balance.
unfoldable pub show_balances :
    Currencies → List ℕ → List CurrencyBalance → List (List ℕ × Option (List ℕ))
unfolding price_of diem_amount_to_human_friendly fiat_to_diem_human_friendly
show_balances currencies fiat [] = []
show_balances currencies fiat (b ∷ bs) =
    (
      diem_amount_to_human_friendly (whole b.balance) true,
      Option.map (λ p. fiat_to_diem_human_friendly p true) (price_of currencies fiat b),
    )
    ∷ show_balances currencies fiat bs

-- What `TotalBalance` shows.
unfoldable pub show_total : Currencies → List ℕ → List CurrencyBalance → Option (List ℕ)
unfolding total_fiat_balance fiat_to_diem_human_friendly
show_total currencies fiat balances =
    Option.map (λ t. fiat_to_diem_human_friendly t true)
      (total_fiat_balance currencies fiat balances)
