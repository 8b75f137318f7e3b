-- ===== src/Mobile/Transfer/Amounts.antt =====
-- The amounts that the mobile withdraw form accepts and asks a quote for.
use text.Mathlib.Text.{◌==◌ as str_eq}
use reference_wallet.Base.{
  ℕ, ◌≡◌, ◌⊎◌, ◌↔◌, inl, inr, refl, Bool, true, false, ◌&&◌, none, some, List, [], String,
}
use reference_wallet.Amount.{whole}
use reference_wallet.Options.{CurrencyBalance}
use reference_wallet.Transfer.Rules.{find_balance}
use reference_wallet.Mobile.Amount.{diem_from_float}
use reference_wallet.Mobile.Client.{request_withdraw_quote}
use reference_wallet.Mobile.Rules.{is_high_enough, is_within_balance}
use reference_wallet.Mobile.Rules.Entered.{IsEntered, IsEntered-iff, empty_accepted}
use reference_wallet.Mobile.Transfer.Withdraw.{WithdrawData, accepts, quote_call}

-- A form with all its choices made, where `text` is the amount.
abbrev pub chosen : ℕ → String → String → List ℕ → WithdrawData
chosen source fiat currency text = record {
  funding_source = some source;
  fiat_currency = some fiat;
  diem_currency = some currency;
  diem_amount = some text;
}

and_true : (a b : Bool) → a && (b && true) ≡ a && b
and_true true true = refl
and_true true false = refl
and_true false b = refl

module _ (balances : List CurrencyBalance) (source : ℕ) (fiat currency : String) (balance : ℕ)
    (has_fiat : str_eq fiat "" ≡ false) (has_currency : str_eq currency "" ≡ false)
    (found : find_balance balances currency ≡ some balance) where
  accepts-amount :
      (text : List ℕ)
      → accepts balances (chosen source fiat currency text)
        ≡ is_high_enough (some text) && is_within_balance (some (some balance)) (some text)
  unfolding accepts
  accepts-amount text =
      rw (has_fiat, has_currency, found)
        (and_true (is_high_enough (some text))
          (is_within_balance (some (some balance)) (some text)))

  -- The call for a quote that such a text leads to.
  abbrev pub IsQuoted : List ℕ → Type 0
  IsQuoted text =
      (h : IsEntered balance text) × (quote_call (chosen source fiat currency text)
        ≡ some (request_withdraw_quote currency fiat (some (whole (diem_from_float h.value)))))

  -- With all choices made and a balance of the currency, the form accepts the empty amount and
  -- otherwise just the texts of a number of at least 1 that the balance covers, and for such a text it
  -- asks a quote for the amount of its number.
  withdraw_accepts_iff :
      (text : List ℕ)
      → (accepts balances (chosen source fiat currency text) ≡ true) ↔ ((text ≡ []) ⊎ IsQuoted text)
  unfolding quote_call
  withdraw_accepts_iff text = (
    λ a. quoted ((IsEntered-iff balance text).0 (rw⁻¹ (accepts-amount text) a)),
    λ o. rw (accepts-amount text) ((IsEntered-iff balance text).1 (entered o)),
  )
    where
      quoted : (text ≡ []) ⊎ IsEntered balance text → (text ≡ []) ⊎ IsQuoted text
      quoted (inl e) = inl e
      quoted (inr h) = inr (h, rw (h.parsed) refl)

      entered : (text ≡ []) ⊎ IsQuoted text → (text ≡ []) ⊎ IsEntered balance text
      entered (inl e) = inl e
      entered (inr (h, q)) = inr h

  -- With all choices made and a balance of the currency, the form accepts an amount that has been
  -- erased and asks a quote for an amount that is NaN.
  empty_amount-sent :
      (accepts balances (chosen source fiat currency []) ≡ true)
      × (quote_call (chosen source fiat currency [])
          ≡ some (request_withdraw_quote currency fiat none))
  unfolding quote_call
  empty_amount-sent = (rw (accepts-amount []) (empty_accepted balance), refl)
