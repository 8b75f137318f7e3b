-- ===== src/Transfer/Rules/Covered.antt =====
-- What the withdraw and the convert dialog ask the backend for, when their forms have accepted it.
use text.Mathlib.Text.{◌==◌ as str_eq}
use reference_wallet.Base.{
  ℕ, ◌+◌, ◌≤◌, ◌<◌, ◌≡◌, inl, inr, refl, true, false, Option, none, some, List, String, arith, leb,
  All, All-imp, Option-cases, Bool-cases,
}
use native.Mathlib.Nat.{mul-le-mul_right}
use reference_wallet.Amount.{whole, diem_scaling_factor, diem_amount_from_float}
use reference_wallet.Amount.Text.{Fraction}
use reference_wallet.Amount.Rounding.{diem_amount_nearest}
use reference_wallet.Options.{CurrencyBalance}
use reference_wallet.Backend.Account.{Quote, request_withdraw_quote, request_convert_quote}
use reference_wallet.Transfer.Machine.{Machine, Request}
use reference_wallet.Transfer.Machine.Fed.{Reach, Reach-sent}
use reference_wallet.Transfer.Withdraw
use reference_wallet.Transfer.Withdraw.{WithdrawData, withdraw_reducer}
use reference_wallet.Transfer.Convert
use reference_wallet.Transfer.Convert.{ConvertData, convert_reducer}
use reference_wallet.Transfer.Rules.{
  find_balance, accepts_amount, validate_amount, withdraw_accepts, convert_accepts,
}

-- An amount that is a number, and not the quotient by 0 that stands for an infinity.
abbrev pub IsFinite : Option Fraction → Type 0
IsFinite none = Unit
IsFinite (some x) = 0 < x.den

-- The form accepts the data.
abbrev pub IsWithdrawal : List CurrencyBalance → WithdrawData → Type 0
IsWithdrawal balances d = (withdraw_accepts balances d ≡ true) × IsFinite d.amount

abbrev pub IsConversion : List CurrencyBalance → ConvertData → Type 0
IsConversion balances d = (convert_accepts balances d ≡ true) × IsFinite d.amount

-- An amount of a currency, of at least one whole unit, that the account's balance covers.
pub record IsCovered (balances : List CurrencyBalance) (currency : String) (amount : ℕ)
    : Type 0 where
  pub balance : ℕ
  pub has_balance : find_balance balances currency ≡ some balance
  pub covered : amount ≤ balance
  pub at_least : diem_scaling_factor ≤ amount

one_or_more :
    (x : Fraction) → 0 < x.den → x.den ≤ x.num → diem_scaling_factor ≤ diem_amount_from_float x
one_or_more x h k = elim (Bool-cases (leb diem_scaling_factor (diem_amount_from_float x))) [
  | inl enough ↦ ground (arith, enough)
  | inr short ↦
      let n = diem_amount_from_float x in
      let below : n + 1 ≤ diem_scaling_factor = ground (arith, short) in
      absurd (omega (arith, (diem_amount_nearest x h).1, mul-le-mul_right {m = n + 1} x.den below))
]

-- An accepted amount is covered.
accepted-IsCovered :
    (balances : List CurrencyBalance) (currency : String) (x : Fraction)
    → str_eq currency "" ≡ false
    → 0 < x.den
    → accepts_amount balances (some currency) (some x) ≡ true
    → IsCovered balances currency (diem_amount_from_float x)
unfolding accepts_amount validate_amount
accepted-IsCovered balances currency x named h a =
    elim (Option-cases (find_balance balances currency)) [
      | inl missing ↦ absurd (ground (arith, missing, named))
      | inr (balance, found) ↦ record {
        balance = balance;
        has_balance = found;
        covered = ground (arith, found, named);
        at_least = one_or_more x h (ground (arith, a));
      }
    ]

-- What a withdraw dialog asks for.
pub record AsksWithdrawal (balances : List CurrencyBalance) (d : WithdrawData) : Type 0 where
  pub currency : String
  pub amount : ℕ
  pub call :
      Withdraw.quote_call d ≡ some (request_withdraw_quote currency d.fiat_currency (whole amount))
  pub covers : IsCovered balances currency amount

pub record AsksConversion (balances : List CurrencyBalance) (d : ConvertData) : Type 0 where
  pub from : String
  pub to : String
  pub amount : ℕ
  pub call : Convert.quote_call d ≡ some (request_convert_quote from to (whole amount))
  pub other : str_eq to from ≡ false
  pub covers : IsCovered balances from amount

withdrawal-Asks :
    (balances : List CurrencyBalance) (source : Option ℕ) (fiat : String) (currency : Option String)
    (amount : Option Fraction)
    → IsWithdrawal balances (record {
      funding_source = source;
      fiat_currency = fiat;
      currency = currency;
      amount = amount;
    })
    → AsksWithdrawal balances (record {
      funding_source = source;
      fiat_currency = fiat;
      currency = currency;
      amount = amount;
    })
unfolding withdraw_accepts Withdraw.quote_call accepts_amount
withdrawal-Asks balances source fiat none amount (h, f) = absurd (ground arith)
withdrawal-Asks balances source fiat (some c) none (h, f) = absurd (ground arith)
withdrawal-Asks balances source fiat (some c) (some x) (h, f) = record {
  currency = c;
  amount = diem_amount_from_float x;
  call = refl;
  covers = accepted-IsCovered balances c x (ground (arith, h)) f (ground (arith, h));
}

conversion-Asks :
    (balances : List CurrencyBalance) (from to : Option String) (amount : Option Fraction)
    → IsConversion balances (record { from_currency = from; to_currency = to; amount = amount })
    → AsksConversion balances (record { from_currency = from; to_currency = to; amount = amount })
unfolding convert_accepts Convert.quote_call accepts_amount
conversion-Asks balances none to amount (h, f) = absurd (ground arith)
conversion-Asks balances (some c) none amount (h, f) = absurd (ground arith)
conversion-Asks balances (some c) (some t) none (h, f) = absurd (ground arith)
conversion-Asks balances (some c) (some t) (some x) (h, f) = record {
  from = c;
  to = t;
  amount = diem_amount_from_float x;
  call = refl;
  other = ground (arith, h);
  covers = accepted-IsCovered balances c x (ground (arith, h)) f (ground (arith, h));
}

-- At every point of a run of a withdraw dialog whose form has accepted what was submitted, each quote
-- that is being requested, and each that was executed, is asked for as one withdrawal of a currency of
-- the account, of at least one whole unit and of no more than its balance.
pub withdrawals-covered :
    (balances : List CurrencyBalance) {m : Machine WithdrawData Quote}
    → Reach (IsWithdrawal balances) withdraw_reducer m
    → All (λ (x : Request WithdrawData). AsksWithdrawal balances x.data_sent) m.requests
      × All (λ (x : Quote × WithdrawData). AsksWithdrawal balances x.1) m.executed
withdrawals-covered balances {m} c =
    let (requested, executed) = Reach-sent (IsWithdrawal balances) withdraw_reducer c in
    let asks = λ (d : WithdrawData).
      withdrawal-Asks balances d.funding_source d.fiat_currency d.currency d.amount in
    (
      All-imp m.requests (λ (x : Request WithdrawData). asks x.data_sent) requested,
      All-imp m.executed (λ (x : Quote × WithdrawData). asks x.1) executed,
    )

-- The same holds of a convert dialog, and the two currencies differ.
conversions-covered :
    (balances : List CurrencyBalance) {m : Machine ConvertData Quote}
    → Reach (IsConversion balances) convert_reducer m
    → All (λ (x : Request ConvertData). AsksConversion balances x.data_sent) m.requests
      × All (λ (x : Quote × ConvertData). AsksConversion balances x.1) m.executed
conversions-covered balances {m} c =
    let (requested, executed) = Reach-sent (IsConversion balances) convert_reducer c in
    let asks =
      λ (d : ConvertData). conversion-Asks balances d.from_currency d.to_currency d.amount in
    (
      All-imp m.requests (λ (x : Request ConvertData). asks x.data_sent) requested,
      All-imp m.executed (λ (x : Quote × ConvertData). asks x.1) executed,
    )
