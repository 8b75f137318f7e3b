-- ===== src/Mobile/Transactions/Same.antt =====
-- The mobile screen of a transaction beside the web modal.
use mathlib.Core.Option
use reference_wallet.Base.{◌≡◌, refl, some, Option-cases, inl, inr}
use reference_wallet.Amount.Text.{Fraction}
use reference_wallet.Options.{lookup}
use reference_wallet.Rates.{Currencies}
use reference_wallet.Send.Intents.{text_eq}
use reference_wallet.Transactions.{Transaction, Settings, Currency, ModalView, show_modal}
use reference_wallet.Mobile.Transactions.{
  Screen, diem_currencies, fiat_currencies, show_transaction,
}

-- The mobile screen that shows what the web modal shows.
abbrev pub screen_of : ModalView → Screen
screen_of m = record {
  direction = m.direction;
  address = m.account.full_addr;
  amount_shown = m.amount_shown;
  color = m.color;
  price_shown = m.price_shown;
  id_shown = m.id_shown;
}

-- When the settings of the web client and the tables of the mobile client have the same sign and the same
-- rates for the currency of a transaction, one of them for the fiat currency, and the same fiat currencies,
-- the mobile screen shows of a transaction what the web modal shows.
screen-modal :
    (s : Settings) (rates : Currencies) (t : Transaction) (c : Currency) (rate : Fraction)
    → lookup text_eq t.currency s.currencies ≡ some c
    → lookup text_eq t.currency diem_currencies ≡ some c.sign
    → lookup text_eq t.currency rates ≡ some c.rates
    → lookup text_eq s.default_fiat_currency_code c.rates ≡ some rate
    → s.fiat_currencies ≡ fiat_currencies
    → show_transaction rates s.default_fiat_currency_code t ≡ Option.map screen_of (show_modal s t)
unfolding show_transaction show_modal
screen-modal s rates t c rate known signed rated priced same =
    elim (Option-cases (lookup text_eq s.default_fiat_currency_code fiat_currencies)) [
      | inl missing ↦ rw (known, signed, rated, priced, same, missing) refl
      | inr (f, found) ↦ rw (known, signed, rated, priced, same, found) refl
    ]
