-- ===== src/Mobile/Transfer/Withdraw.antt =====
-- mobile/src/screens/Transfer/Withdraw.tsx and WithdrawReview.tsx.
use text.Mathlib.Text.{◌==◌ as str_eq}
use reference_wallet.Base.{ℕ, Bool, ◌&&◌, Option, none, some, List, String, if◌then◌else◌, ◌>>=◌}
use mathlib.Core.Option
use reference_wallet.Amount.{whole}
use reference_wallet.Amount.Text.{Fraction, parse_float}
use reference_wallet.Options.{CurrencyBalance}
use reference_wallet.Backend.Http.{Call}
use reference_wallet.Backend.Account.{Quote}
use reference_wallet.Transfer.Rules.{is_chosen, is_present, find_balance}
use reference_wallet.Mobile.Amount.{diem_from_float}
use reference_wallet.Mobile.Client.{request_withdraw_quote, execute_quote}
use reference_wallet.Mobile.Rules.{is_high_enough, is_within_balance}
use reference_wallet.Mobile.Transfer
use reference_wallet.Mobile.Transfer.{Screens, Event}

pub record WithdrawData : Type 0 where
  pub funding_source : Option ℕ
  pub fiat_currency : Option String
  pub diem_currency : Option String
  pub diem_amount : Option (List ℕ)

-- What `find` finds for a currency that is chosen.
abbrev pub chosen_balance : List CurrencyBalance → Option String → Option (Option ℕ)
chosen_balance balances none = none
chosen_balance balances (some c) = if str_eq c "" then none else some (find_balance balances c)

-- The rules of all fields.
unfoldable pub accepts : List CurrencyBalance → WithdrawData → Bool
unfolding is_high_enough is_within_balance find_balance
accepts balances d =
    is_present d.funding_source
    && (is_chosen d.diem_currency
        && (is_high_enough d.diem_amount
            && (is_within_balance (chosen_balance balances d.diem_currency) d.diem_amount
                && is_chosen d.fiat_currency)))

-- `diemFromFloat(parseFloat(diemAmount!))`.
abbrev pub amount_of : Option (List ℕ) → Option Fraction
amount_of entered = Option.map (λ x. whole (diem_from_float x)) (entered >>= parse_float)

-- The call of `onFormSubmit`; `none` where a currency is missing, which a submitted form has checked.
unfoldable pub quote_call : WithdrawData → Option (Call Quote)
unfolding request_withdraw_quote parse_float diem_from_float
quote_call d = do
  currency ← d.diem_currency
  fiat_currency ← d.fiat_currency
  some (request_withdraw_quote currency fiat_currency (amount_of d.diem_amount))

-- The call of the review's `handleSubmit`, for the text of the quote's identifier.
unfoldable pub execute_call : String → WithdrawData → Call (Unit {0})
unfolding execute_quote
execute_call quote_id d = execute_quote quote_id d.funding_source

unfoldable pub step :
    List CurrencyBalance
    → (Bool → Bool)
    → Screens WithdrawData Quote
    → Event WithdrawData Quote
    → Screens WithdrawData Quote
unfolding Transfer.step accepts
step balances = Transfer.step (accepts balances)
