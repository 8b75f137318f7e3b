-- ===== src/Transactions/Agree.antt =====
-- The row of a transaction beside the modal that opens at a press on it.
use mathlib.Core.Option
use native.Mathlib.Nat.{mul-zero}
use reference_wallet.Base.{
  ℕ, ◌≡◌, ◌/◌, refl, true, ap, none, some, ◌∷◌, ◌++◌, codes, Option-cases, inl, inr,
}
use reference_wallet.Amount.{
  whole, fiat_to_diem_human_friendly, diem_amount_to_float, diem_scaling_factor,
}
use reference_wallet.Amount.Text.{Fraction, trunc}
use reference_wallet.Balances.{times}
use reference_wallet.Options.{lookup}
use reference_wallet.Send.Intents.{text_eq}
use reference_wallet.Transactions.{
  Transaction, Settings, Currency, FiatCurrency, ModalView, Row, title_of, amount_sign, list_color,
  show_row, show_modal, price_text,
}

-- The row that shows what a modal shows.
abbrev pub row_of : Transaction → ModalView → Row
row_of t m = record {
  title = title_of t.direction t.status;
  address = m.account.full_addr;
  amount_shown = amount_sign t.direction ++ m.amount_shown;
  color = list_color t.status;
  price_shown = m.price_shown;
}

-- A price of zero.
unpriced-zero :
    (amount : ℕ)
    → fiat_to_diem_human_friendly (times (diem_amount_to_float (whole amount)) (whole 0)) true
      ≡ codes "0.00"
unfolding fiat_to_diem_human_friendly diem_amount_to_float trunc
unpriced-zero amount =
    ap (λ (n : ℕ). fiat_to_diem_human_friendly (record { num = n; den = diem_scaling_factor }) true)
      (mul-zero (amount / 1))

module _ (s : Settings) (t : Transaction) (c : Currency)
    (known : lookup text_eq t.currency s.currencies ≡ some c) where
  -- When the rate of the currency is known, the row shows the address, the amount and the price that the
  -- modal shows, the amount behind a minus sign when it was sent, and where the one throws the other does.
  row-modal :
      (rate : Fraction)
      → lookup text_eq s.default_fiat_currency_code c.rates ≡ some rate
      → show_row s t ≡ Option.map (row_of t) (show_modal s t)
  unfolding show_row show_modal
  row-modal rate priced =
      elim (Option-cases (lookup text_eq s.default_fiat_currency_code s.fiat_currencies)) [
        | inl missing ↦ rw (known, missing) refl
        | inr (f, found) ↦ rw (known, found, priced) refl
      ]

  -- Without a rate, the row shows the price NaN, and the modal the price 0.00.
  unpriced_row-modal :
      (f : FiatCurrency)
      → lookup text_eq s.default_fiat_currency_code c.rates ≡ none
      → lookup text_eq s.default_fiat_currency_code s.fiat_currencies ≡ some f
      → (Option.map (λ (r : Row). r.price_shown) (show_row s t)
          ≡ some (f.fiat_sign ++ codes "NaN" ++ b' ' ∷ f.symbol))
        × (Option.map (λ (m : ModalView). m.price_shown) (show_modal s t)
            ≡ some (f.fiat_sign ++ codes "0.00" ++ b' ' ∷ f.symbol))
  unfolding show_row show_modal price_text
  unpriced_row-modal f missing found =
      (rw (known, found, missing) refl, rw (known, found, missing, unpriced-zero t.amount) refl)
