-- ===== src/Transfer/Convert.antt =====
-- frontend/src/components/Transfer/Convert.tsx and the type of its data in interfaces.ts, over the machine
-- of Transfer/Machine.antt.
use reference_wallet.Base.{refl, Bool, Option, none, some, [], String, ◌>>=◌}
use reference_wallet.Amount.{whole, diem_amount_from_float}
use reference_wallet.Amount.Text.{Fraction}
use reference_wallet.Backend.Http.{Call}
use reference_wallet.Backend.Account.{Quote, request_convert_quote, execute_quote}
use reference_wallet.Transfer.Machine
use reference_wallet.Transfer.Machine.{
  Phase, State, Action, Reducer, Machine, Event, View, after_error,
}

pub record ConvertData : Type 0 where
  pub from_currency : Option String
  pub to_currency : Option String
  pub amount : Option Fraction

unfoldable pub reducer :
    State ConvertData Quote → Action ConvertData Quote → State ConvertData Quote
reducer s Action.collect = record s { phase = Phase.collect }
reducer s (Action.quote d) = record {
  phase = Phase.quote;
  request_data = d;
  quote = none;
  error_message = none;
}
reducer s (Action.review q) = record s { phase = Phase.review; quote = some q }
reducer s Action.execute = record s { phase = Phase.execute }
reducer s Action.executing = record s { phase = Phase.executing }
reducer s Action.done = record s { phase = Phase.done }
reducer s (Action.error e) = record s { phase = after_error s.phase; error_message = some e }

unfoldable pub convert_reducer : Reducer ConvertData Quote
unfolding reducer
convert_reducer = record {
  reduce = reducer;
  reduce-collect = λ s. refl;
  reduce-quote_phase = λ s x. refl;
  reduce-quote_data = λ s x. refl;
  reduce-review = λ s x. refl;
  reduce-execute = λ s. refl;
  reduce-executing = λ s. refl;
  reduce-done = λ s. refl;
  reduce-error = λ s x. refl;
}

-- The dialog as it is mounted.
unfoldable pub mount : Option String → Bool → Machine ConvertData Quote
mount initial_currency is_loaded = record {
  is_loaded = is_loaded;
  state = record {
    phase = Phase.collect;
    request_data = record { from_currency = initial_currency; to_currency = none; amount = none };
    quote = none;
    error_message = none;
  };
  requests = [];
  executions = [];
  executed = [];
}

-- The call of `requestQuote`; `none` where a currency or the amount is missing, which a submitted form
-- has checked.
unfoldable pub quote_call : ConvertData → Option (Call Quote)
unfolding request_convert_quote diem_amount_from_float
quote_call d = do
  from_currency ← d.from_currency
  to_currency ← d.to_currency
  amount ← d.amount
  some (request_convert_quote from_currency to_currency (whole (diem_amount_from_float amount)))

-- The call of `executeQuote`, for the text of the quote's identifier.
unfoldable pub execute_call : String → ConvertData → Call (Unit {0})
unfolding execute_quote
execute_call quote_id d = execute_quote quote_id none

-- The effect, the handlers and the clean-up of the dialog.
unfoldable pub step :
    Machine ConvertData Quote → Event ConvertData Quote → Machine ConvertData Quote
unfolding Machine.step convert_reducer
step = Machine.step convert_reducer

unfoldable pub view : Machine ConvertData Quote → View ConvertData Quote
unfolding Machine.view
view = Machine.view
