-- ===== src/Transfer/Deposit.antt =====
-- frontend/src/components/Transfer/Deposit.tsx and the type of its data in interfaces.ts, over the machine
-- of Transfer/Machine.antt.
use reference_wallet.Base.{ℕ, refl, Bool, Option, none, some, [], String, ◌>>=◌}
use reference_wallet.Amount.{whole, diem_amount_from_float}
use reference_wallet.Amount.Text.{Fraction}
use reference_wallet.Backend.Http.{Call}
use reference_wallet.Backend.Account.{Quote, request_deposit_quote, execute_quote}
use reference_wallet.Transfer.Machine
use reference_wallet.Transfer.Machine.{
  Phase, State, Action, Reducer, Machine, Event, View, after_error,
}

pub record DepositData : Type 0 where
  pub funding_source : Option ℕ
  pub fiat_currency : String
  pub currency : Option String
  pub amount : Option Fraction

unfoldable pub reducer :
    State DepositData Quote → Action DepositData Quote → State DepositData Quote
reducer s Action.collect = record s { phase = Phase.collect }
reducer s (Action.quote d) = record s { phase = Phase.quote; request_data = d }
reducer s (Action.review q) = record s { phase = Phase.review; quote = some q }
reducer s Action.execute = record s { phase = Phase.execute }
reducer s Action.executing = record s { phase = Phase.executing }
reducer s Action.done = record s { phase = Phase.done }
reducer s (Action.error e) = record s { phase = after_error s.phase; error_message = some e }

unfoldable pub deposit_reducer : Reducer DepositData Quote
unfolding reducer
deposit_reducer = record {
  reduce = reducer;
  reduce-collect = λ s. refl;
  reduce-quote_phase = λ s x. refl;
  reduce-quote_data = λ s x. refl;
  reduce-review = λ s x. refl;
  reduce-execute = λ s. refl;
  reduce-executing = λ s. refl;
  reduce-done = λ s. refl;
  reduce-error = λ s x. refl;
}

-- The dialog as it is mounted.
unfoldable pub mount : Option String → String → Bool → Machine DepositData Quote
mount initial_currency default_fiat_currency_code is_loaded = record {
  is_loaded = is_loaded;
  state = record {
    phase = Phase.collect;
    request_data = record {
      funding_source = none;
      fiat_currency = default_fiat_currency_code;
      currency = initial_currency;
      amount = none;
    };
    quote = none;
    error_message = none;
  };
  requests = [];
  executions = [];
  executed = [];
}

-- The call of `requestQuote`; `none` where the currency or the amount is missing, which a submitted
-- form has checked.
unfoldable pub quote_call : DepositData → Option (Call Quote)
unfolding request_deposit_quote diem_amount_from_float
quote_call d = do
  currency ← d.currency
  amount ← d.amount
  some (request_deposit_quote d.fiat_currency currency (whole (diem_amount_from_float amount)))

-- The call of `executeQuote`, for the text of the quote's identifier.
unfoldable pub execute_call : String → DepositData → Call (Unit {0})
unfolding execute_quote
execute_call quote_id d = execute_quote quote_id d.funding_source

-- The effect, the handlers and the clean-up of the dialog.
unfoldable pub step :
    Machine DepositData Quote → Event DepositData Quote → Machine DepositData Quote
unfolding Machine.step deposit_reducer
step = Machine.step deposit_reducer

unfoldable pub view : Machine DepositData Quote → View DepositData Quote
unfolding Machine.view
view = Machine.view
