-- ===== src/Mobile/Transactions.antt =====
-- What the mobile client shows of a transaction: mobile/src/components/TransactionsList.tsx,
-- mobile/src/screens/SingleTransaction.tsx, mobile/src/components/ExplorerLink.tsx,
-- mobile/src/utils/shorten-address.ts, and the tables of mobile/src/currencies.ts.
pub mod Same
mod Tests
use mathlib.Core.Option
use reference_wallet.Base.{
  ℕ, suc, zero, Bool, true, false, Option, none, some, List, [], ◌∷◌, ◌++◌, ◌>>=◌, codes, String,
}
use reference_wallet.Amount.{whole}
use reference_wallet.Amount.Text.{Fraction}
use reference_wallet.Mobile.Amount.{diem_to_human_friendly, fiat_to_human_friendly, diem_to_float}
use reference_wallet.Balances.{times}
use reference_wallet.Options.{lookup}
use reference_wallet.Rates.{Currencies}
use reference_wallet.Send.Intents.{text_eq}
use reference_wallet.Settings.Forms.{slice_last}
use reference_wallet.Transactions.{
  TransactionDirection, TransactionStatus, Transaction, VaspAccount, FiatCurrency, Color, TxId,
  fiat_text, other_account, modal_color, tx_id,
}

-- The signs of `diemCurrencies`, and `fiatCurrencies`.
unfoldable pub diem_currencies : List (List ℕ × List ℕ)
diem_currencies =
    (codes "XDM", codes "≋XDM") ∷ (codes "XUS", codes "≋XUS") ∷ (codes "Coin2", codes "≋Coin2") ∷ []

abbrev pub fiat_currency : String → String → List ℕ × FiatCurrency
fiat_currency symbol sign = (codes symbol, record { symbol = codes symbol; fiat_sign = codes sign })

unfoldable pub fiat_currencies : List (List ℕ × FiatCurrency)
fiat_currencies =
    fiat_currency "USD" "$"
    ∷ fiat_currency "EUR" "€"
    ∷ fiat_currency "GBP" "£"
    ∷ fiat_currency "CHF" "Fr"
    ∷ fiat_currency "CAD" "$"
    ∷ fiat_currency "AUD" "$"
    ∷ fiat_currency "NZD" "$"
    ∷ fiat_currency "JPY" "¥"
    ∷ []

-- `text.substr(0, k)`.
abbrev pub take_first : ℕ → List ℕ → List ℕ
take_first zero text = []
take_first (suc k) [] = []
take_first (suc k) (c ∷ cs) = c ∷ take_first k cs

unfoldable pub shorten_diem_address : List ℕ → List ℕ
unfolding slice_last
shorten_diem_address address = take_first 6 address ++ codes "...." ++ slice_last 6 address

-- The line of a row; a direction other than the two is not modelled.
pub data Line : Type 0 where
  external_received external_sent internal_received internal_sent : Line

abbrev pub line_of : TransactionDirection → Option ℕ → Line
line_of TransactionDirection.received (some version) = Line.external_received
line_of TransactionDirection.sent (some version) = Line.external_sent
line_of TransactionDirection.received none = Line.internal_received
line_of TransactionDirection.sent none = Line.internal_sent

abbrev pub amount_prefix : TransactionDirection → List ℕ
amount_prefix TransactionDirection.received = codes "+ "
amount_prefix TransactionDirection.sent = codes "- "

unfoldable pub amount_text : ℕ → List ℕ → List ℕ
unfolding diem_to_human_friendly
amount_text amount sign = diem_to_human_friendly (whole amount) true ++ b' ' ∷ sign

-- The number NaN is shown by its name.
abbrev pub price_or_nan : Option Fraction → List ℕ
unfolding fiat_to_human_friendly
price_or_nan none = codes "NaN"
price_or_nan (some price) = fiat_to_human_friendly price true

unfoldable pub price_text : ℕ → FiatCurrency → Option Fraction → List ℕ
unfolding price_or_nan diem_to_float
price_text amount f rate =
    f.fiat_sign
    ++ price_or_nan (Option.map (times (diem_to_float (whole amount))) rate)
    ++ b' ' ∷ f.symbol

-- The color `danger` is that of the badge "error".
pub record Row : Type 0 where
  pub line : Line
  pub address : List ℕ
  pub amount_shown : List ℕ
  pub color : Color
  pub price_shown : List ℕ

-- The signs and the rates that a transaction is shown with; where one is missing, the component throws.
abbrev pub with_currencies :
    {X : Type 0}
    → Currencies
    → List ℕ
    → Transaction
    → (List ℕ → FiatCurrency → Option Fraction → X)
    → Option X
unfolding lookup text_eq diem_currencies fiat_currencies
with_currencies rates fiat t go_on =
    lookup text_eq t.currency diem_currencies >>= λ (sign : List ℕ).
    lookup text_eq t.currency rates >>= λ (prices : List (List ℕ × Fraction)).
    Option.map (λ (f : FiatCurrency). go_on sign f (lookup text_eq fiat prices))
      (lookup text_eq fiat fiat_currencies)

unfoldable pub show_row : Currencies → List ℕ → Transaction → Option Row
unfolding with_currencies amount_text price_text shorten_diem_address
show_row rates fiat t = with_currencies rates fiat t (λ sign f rate. record {
  line = line_of t.direction t.version;
  address = shorten_diem_address (other_account t.direction t).full_addr;
  amount_shown = amount_prefix t.direction ++ amount_text t.amount sign;
  color = modal_color t.status;
  price_shown = price_text t.amount f rate;
})

pub record Screen : Type 0 where
  pub direction : TransactionDirection
  pub address : List ℕ
  pub amount_shown : List ℕ
  pub color : Color
  pub price_shown : List ℕ
  pub id_shown : TxId

unfoldable pub show_transaction : Currencies → List ℕ → Transaction → Option Screen
unfolding with_currencies amount_text price_text
show_transaction rates fiat t = with_currencies rates fiat t (λ sign f rate. record {
  direction = t.direction;
  address = (other_account t.direction t).full_addr;
  amount_shown = amount_text t.amount sign;
  color = modal_color t.status;
  price_shown = price_text t.amount f rate;
  id_shown = tx_id t.is_internal t.version;
})
