-- ===== src/Send/Modal/Payable.antt =====
-- What frontend/src/components/Send/SendModal.tsx asks the backend to send.
use reference_wallet.Base.{
  ℕ, ◌≤◌, ◌≡◌, inl, inr, refl, true, Option, none, some, List, [], ◌∷◌, arith, length, All, All-imp,
  Option-cases, subst,
}
use reference_wallet.Amount.{diem_amount_from_float}
use reference_wallet.Amount.Text.{Fraction}
use reference_wallet.Send.Form.{
  CurrencyBalance, accepts, balance_of, valid_vasp_address, validate_amount, valid_amount,
}
use reference_wallet.Send.Modal.{Transaction, World, transaction_of}
use reference_wallet.Send.Modal.Runs.{Reach, Reach-IsChecked}

-- A transaction that names a currency of the account, an amount within its balance and an address of
-- fifty characters.
pub record IsPayable (balances : List CurrencyBalance) (x : Transaction) : Type 0 where
  pub currency : List ℕ
  pub amount : ℕ
  pub address : List ℕ
  pub balance : ℕ
  pub has_currency : x.currency ≡ some currency
  pub has_amount : x.amount ≡ some amount
  pub has_address : x.address ≡ some address
  pub has_balance : balance_of currency balances ≡ some balance
  pub covered : amount ≤ balance
  pub fifty : length address ≡ 50

fields-IsPayable :
    (balances : List CurrencyBalance) (currency : Option (List ℕ)) (fiat : List ℕ)
    (amount : Option Fraction) (address : Option (List ℕ))
    → accepts balances
        (record { currency = currency; fiat_currency = fiat; amount = amount; address = address })
      ≡ true
    → IsPayable balances (
        transaction_of (record {
          currency = currency;
          fiat_currency = fiat;
          amount = amount;
          address = address;
        }))
unfolding accepts valid_amount validate_amount valid_vasp_address transaction_of
fields-IsPayable balances none fiat amount address h = absurd (ground arith)
fields-IsPayable balances (some []) fiat amount address h = absurd (ground arith)
fields-IsPayable balances (some (c ∷ cs)) fiat amount none h = absurd (ground arith)
fields-IsPayable balances (some (c ∷ cs)) fiat none (some text) h = absurd (ground arith)
fields-IsPayable balances (some (c ∷ cs)) fiat (some x) (some text) h =
    elim (Option-cases (balance_of (c ∷ cs) balances)) [
      | inl missing ↦ absurd (ground (arith, missing))
      | inr (balance, found) ↦ record {
        currency = c ∷ cs;
        amount = diem_amount_from_float x;
        address = text;
        balance = balance;
        has_currency = refl;
        has_amount = refl;
        has_address = refl;
        has_balance = found;
        covered = ground (arith, found);
        fifty = ground arith;
      }
    ]

-- At every point of a run, each transaction that the dialog has asked the backend for names a
-- currency of the account, an amount that the balance of that currency covers, and an address of
-- fifty characters; the balances are those of one account that does not change.
pub Reach-IsPayable :
    (balances : List CurrencyBalance) (initial_currency : Option (List ℕ)) (fiat_code : List ℕ)
    (w : World)
    → Reach balances initial_currency fiat_code w
    → All (IsPayable balances) w.asked
Reach-IsPayable balances initial_currency fiat_code w r =
    All-imp w.asked
      (λ x (d, e, h).
        subst (IsPayable balances) e
          (fields-IsPayable balances d.currency d.fiat_currency d.amount d.address h))
      (Reach-IsChecked balances initial_currency fiat_code r).asked
