-- ===== src/Mobile/Transfer/Deposit.antt =====
-- mobile/src/screens/Transfer/Deposit.tsx and DepositReview.tsx.
use reference_wallet.Base.{ℕ, Bool, ◌&&◌, Option, some, List, String, ◌>>=◌}
use reference_wallet.Amount.Text.{parse_float}
use reference_wallet.Backend.Http.{Call}
use reference_wallet.Backend.Account.{Quote}
use reference_wallet.Transfer.Rules.{is_chosen, is_present}
use reference_wallet.Mobile.Amount.{diem_from_float}
use reference_wallet.Mobile.Client.{request_deposit_quote, execute_quote}
use reference_wallet.Mobile.Rules.{is_high_enough}
use reference_wallet.Mobile.Transfer.Withdraw.{amount_of}
use reference_wallet.Mobile.Transfer
use reference_wallet.Mobile.Transfer.{Screens, Event}

pub record DepositData : Type 0 where
  pub funding_source : Option ℕ
  pub fiat_currency : Option String
  pub diem_currency : Option String
  pub diem_amount : Option (List ℕ)

-- The rules of all fields.
unfoldable pub accepts : DepositData → Bool
unfolding is_high_enough
accepts d =
    is_present d.funding_source
    && (is_chosen d.diem_currency && (is_high_enough d.diem_amount && is_chosen d.fiat_currency))

-- The call of `onFormSubmit`; `none` where a currency is missing, which a submitted form has checked.
unfoldable pub quote_call : DepositData → Option (Call Quote)
unfolding request_deposit_quote parse_float diem_from_float
quote_call d = do
  currency ← d.diem_currency
  fiat_currency ← d.fiat_currency
  some (request_deposit_quote fiat_currency currency (amount_of d.diem_amount))

-- The call of the review's `handleSubmit`, for the text of the quote's identifier.
unfoldable pub execute_call : String → DepositData → Call (Unit {0})
unfolding execute_quote
execute_call quote_id d = execute_quote quote_id d.funding_source

unfoldable pub step :
    (Bool → Bool) → Screens DepositData Quote → Event DepositData Quote → Screens DepositData Quote
unfolding Transfer.step accepts
step = Transfer.step accepts
