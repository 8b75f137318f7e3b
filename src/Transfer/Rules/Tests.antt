-- ===== src/Transfer/Rules/Tests.antt =====
-- Forms that accept what is entered, and the theorems at concrete runs.
use reference_wallet.Base.{◌≡◌, refl, true, false, none, some, List, [], ◌∷◌, All, arith}
use reference_wallet.Amount.{whole}
use reference_wallet.Options.{CurrencyBalance}
use reference_wallet.Backend.Account.{Quote}
use reference_wallet.Transfer.Machine.{Machine, Request, step, submit}
use reference_wallet.Transfer.Machine.Reach.{IsInitial}
use reference_wallet.Transfer.Machine.Fed.{mounted, next}
use reference_wallet.Transfer.Withdraw
use reference_wallet.Transfer.Withdraw.{WithdrawData, withdraw_reducer}
use reference_wallet.Transfer.Convert
use reference_wallet.Transfer.Convert.{ConvertData, convert_reducer}
use reference_wallet.Transfer.Rules.{withdraw_accepts, deposit_accepts, convert_accepts}
use reference_wallet.Transfer.Rules.Covered.{
  IsWithdrawal, IsConversion, AsksWithdrawal, withdrawals-covered,
}

abbrev balances : List CurrencyBalance
balances = record { currency = "XUS"; balance = 5000000 } ∷ []

abbrev wish : WithdrawData
wish = record {
  funding_source = some 1;
  fiat_currency = "EUR";
  currency = some "XUS";
  amount = some (whole 3);
}

too_much : withdraw_accepts balances (record wish { amount = some (whole 6) }) ≡ false
unfolding withdraw_accepts
too_much = refl

too_little : withdraw_accepts balances (record wish { amount = some (whole 0) }) ≡ false
unfolding withdraw_accepts
too_little = refl

wish-IsWithdrawal : IsWithdrawal balances wish
unfolding withdraw_accepts
wish-IsWithdrawal = (refl, omega arith)

abbrev start : Machine WithdrawData Quote
start = Withdraw.mount none "USD" true

start-IsInitial : IsInitial start
unfolding Withdraw.mount
start-IsInitial = record {
  collecting = refl;
  no_requests = refl;
  no_executions = refl;
  none_executed = refl;
}

abbrev asked : Machine WithdrawData Quote
asked = step withdraw_reducer start (submit wish)

withdrawals-covered_example :
    All (λ (x : Request WithdrawData). AsksWithdrawal balances x.data_sent) asked.requests
    × All (λ (x : Quote × WithdrawData). AsksWithdrawal balances x.1) asked.executed
withdrawals-covered_example =
    withdrawals-covered balances (next (submit wish) (mounted start-IsInitial) wish-IsWithdrawal)

abbrev exchange : ConvertData
exchange = record { from_currency = some "XUS"; to_currency = some "XDX"; amount = some (whole 2) }

to_itself : convert_accepts balances (record exchange { to_currency = some "XUS" }) ≡ false
unfolding convert_accepts
to_itself = refl

exchange-IsConversion : IsConversion balances exchange
unfolding convert_accepts
exchange-IsConversion = (refl, omega arith)

abbrev convert : Machine ConvertData Quote
convert = Convert.mount (some "XUS") true

convert-IsInitial : IsInitial convert
unfolding Convert.mount
convert-IsInitial = record {
  collecting = refl;
  no_requests = refl;
  no_executions = refl;
  none_executed = refl;
}

abbrev converting : Machine ConvertData Quote
converting = step convert_reducer convert (submit exchange)

deposit_needs_a_source :
    deposit_accepts (record {
      funding_source = none;
      fiat_currency = "EUR";
      currency = some "XUS";
      amount = some (whole 3);
    })
    ≡ false
unfolding deposit_accepts
deposit_needs_a_source = refl
