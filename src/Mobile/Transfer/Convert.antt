-- ===== src/Mobile/Transfer/Convert.antt =====
-- mobile/src/screens/Transfer/Convert.tsx and ConvertReview.tsx. `meets_min` is react-hook-form's rule
-- `min` with the value 1, on a text that is not empty.
use reference_wallet.Base.{Bool, false, ◌&&◌, Option, none, some, List, [], ◌∷◌, ℕ, String, ◌>>=◌}
use reference_wallet.Amount.Text.{parse_float}
use reference_wallet.Options.{CurrencyBalance}
use reference_wallet.Backend.Http.{Call}
use reference_wallet.Backend.Account.{Quote}
use reference_wallet.Transfer.Rules.{is_chosen, find_balance}
use reference_wallet.Mobile.Amount.{diem_from_float}
use reference_wallet.Mobile.Client.{request_convert_quote, execute_quote}
use reference_wallet.Mobile.Rules.{is_within_balance}
use reference_wallet.Mobile.Transfer.Withdraw.{amount_of, chosen_balance}
use reference_wallet.Mobile.Transfer
use reference_wallet.Mobile.Transfer.{Screens, Event}

pub record ConvertData : Type 0 where
  pub from_diem_currency : Option String
  pub to_diem_currency : Option String
  pub diem_amount : Option (List ℕ)

module _ (meets_min : List ℕ → Bool) where
  -- The rules `required` and `min` of the amount.
  abbrev pub meets_required : Option (List ℕ) → Bool
  meets_required none = false
  meets_required (some []) = false
  meets_required (some (c ∷ cs)) = meets_min (c ∷ cs)

  -- The rules of all fields; the two currencies may be the same.
  unfoldable pub accepts : List CurrencyBalance → ConvertData → Bool
  unfolding is_within_balance find_balance
  accepts balances d =
      is_chosen d.from_diem_currency
      && (is_chosen d.to_diem_currency
          && (meets_required d.diem_amount
              && is_within_balance (chosen_balance balances d.from_diem_currency) d.diem_amount))

  unfoldable pub step :
      List CurrencyBalance
      → (Bool → Bool)
      → Screens ConvertData Quote
      → Event ConvertData Quote
      → Screens ConvertData Quote
  unfolding Transfer.step accepts
  step balances = Transfer.step (accepts balances)

-- The call of `onFormSubmit`; `none` where a currency is missing, which a submitted form has checked.
unfoldable pub quote_call : ConvertData → Option (Call Quote)
unfolding request_convert_quote parse_float diem_from_float
quote_call d = do
  from ← d.from_diem_currency
  to ← d.to_diem_currency
  some (request_convert_quote from to (amount_of d.diem_amount))

-- The call of the review's `handleSubmit`, which gives no funding source.
unfoldable pub execute_call : String → Call (Unit {0})
unfolding execute_quote
execute_call quote_id = execute_quote quote_id none
