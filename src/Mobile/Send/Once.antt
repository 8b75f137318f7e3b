-- ===== src/Mobile/Send/Once.antt =====
-- What the mobile send screens ask the backend for.
use reference_wallet.Base.{
  ℕ, ◌+◌, ◌≤◌, ◌≡◌, ◌⊎◌, inl, inr, refl, true, ◌&&◌, Option, none, some, List, [], ◌∷◌, length,
  arith, All, All-imp, Option-cases, Bool-cases,
}
use reference_wallet.Send.Form.{CurrencyBalance, balance_of, valid_address}
use reference_wallet.Mobile.Amount.{diem_from_float}
use reference_wallet.Mobile.Rules.{is_high_enough, is_within_balance}
use reference_wallet.Mobile.Rules.Entered.{IsEntered, IsEntered-iff}
use reference_wallet.Mobile.Review.{Stack, is_on_top}
use reference_wallet.Mobile.Review.Once.{IsCounted, step-IsCounted, push-IsCounted}
use reference_wallet.Mobile.Review.Props.{IsFed, push-IsFed, step-IsFed}
use reference_wallet.Mobile.Send.{
  SendData, Event, submit, reviewed, step, mount, Reach, mounted, next, accepts, transaction_of,
}

pub record IsTidy (balances : List CurrencyBalance) (s : Stack SendData) : Type 0 where
  pub counted : IsCounted s
  pub fed : IsFed (λ (d : SendData). accepts balances d ≡ true) s

step-IsTidy :
    (balances : List CurrencyBalance) (s : Stack SendData) (e : Event)
    → IsTidy balances s
    → IsTidy balances (step balances s e)
unfolding step
step-IsTidy balances s (submit d) h = elim (Bool-cases (is_on_top s && accepts balances d)) [
  | inl on ↦ rw on (record {
    counted = push-IsCounted d s h.counted;
    fed = push-IsFed (λ (d : SendData). accepts balances d ≡ true) d s (ground (arith, on)) h.fed;
  })
  | inr off ↦ rw off h
]
step-IsTidy balances s (reviewed e) h = record {
  counted = step-IsCounted s e h.counted;
  fed = step-IsFed _ s e h.fed;
}

Reach-IsTidy :
    (balances : List CurrencyBalance) {s : Stack SendData} → Reach balances s → IsTidy balances s
unfolding mount
Reach-IsTidy balances mounted = record {
  counted = omega arith;
  fed = record { reviewed = tt; asked = tt };
}
Reach-IsTidy balances (next {s} e c) = step-IsTidy balances s e (Reach-IsTidy balances c)

-- A transaction to a valid address, of 0 when the amount was erased, and else of the amount that was
-- entered, which the balance of the currency covers.
pub record IsPayable (balances : List CurrencyBalance) (d : SendData) : Type 0 where
  pub to_valid_address : valid_address (transaction_of d).receiver_address ≡ true
  pub currency : List ℕ
  pub of_currency : (transaction_of d).currency ≡ some currency
  pub balance : ℕ
  pub has_balance : balance_of currency balances ≡ some balance
  pub text : List ℕ
  pub payable :
      ((text ≡ []) × ((transaction_of d).amount ≡ some 0))
      ⊎ ((h : IsEntered balance text) × ((transaction_of d).amount
            ≡ some (diem_from_float h.value)))

-- The data of a form, from its fields.
abbrev pub fields : Option (List ℕ) → Option (List ℕ) → Option (List ℕ) → Option (List ℕ) → SendData
fields currency fiat amount address = record {
  diem_currency = currency;
  fiat_currency = fiat;
  diem_amount = amount;
  diem_address = address;
}

-- The amount of the transaction for a text that the rule accepts.
accepted_amount :
    (currency fiat address : Option (List ℕ)) (balance : ℕ) (text : List ℕ)
    → is_high_enough (some text) && is_within_balance (some (some balance)) (some text) ≡ true
    → ((text ≡ []) × ((transaction_of (fields currency fiat (some text) address)).amount ≡ some 0))
      ⊎ ((h : IsEntered balance text) × ((transaction_of
              (fields currency fiat (some text) address)).amount
            ≡ some (diem_from_float h.value)))
unfolding transaction_of
accepted_amount currency fiat address balance text h = at_text ((IsEntered-iff balance text).0 h)
  where
    at_text :
        (text ≡ []) ⊎ IsEntered balance text
        → ((text ≡ [])
            × ((transaction_of (fields currency fiat (some text) address)).amount ≡ some 0))
          ⊎ ((h : IsEntered balance text) × ((transaction_of
                  (fields currency fiat (some text) address)).amount
                ≡ some (diem_from_float h.value)))
    at_text (inl e) = inl (e, rw e refl)
    at_text (inr h) = inr (h, rw (h.as_number) refl)

fields-IsPayable :
    (balances : List CurrencyBalance) (currency fiat amount address : Option (List ℕ))
    → accepts balances (fields currency fiat amount address) ≡ true
    → IsPayable balances (fields currency fiat amount address)
unfolding accepts transaction_of
fields-IsPayable balances none fiat amount address a = absurd (ground (arith, a))
fields-IsPayable balances (some []) fiat amount address a = absurd (ground (arith, a))
fields-IsPayable balances (some (c ∷ cs)) fiat none address a = absurd (ground (arith, a))
fields-IsPayable balances (some (c ∷ cs)) fiat (some text) address a =
    elim (Option-cases (balance_of (c ∷ cs) balances)) [
      | inl missing ↦ absurd (ground (arith, a, missing))
      | inr (b, found) ↦ record {
        to_valid_address = ground (arith, a);
        currency = c ∷ cs;
        of_currency = refl;
        balance = b;
        has_balance = found;
        text = text;
        payable = accepted_amount (some (c ∷ cs)) fiat address b text (ground (arith, a, found));
      }
    ]

-- Each transaction that the screens of one form ask for is to a valid address and of an amount that is
-- either entered, at least 1 and covered by the balance, or 0 for an amount that was erased; and they are
-- no more than the reviews that the form has pushed and the calls that were reported as failed.
pub sends_once :
    (balances : List CurrencyBalance) {s : Stack SendData}
    → Reach balances s
    → All (IsPayable balances) s.asked × (length s.asked ≤ s.pushed + s.failed)
sends_once balances {s} c =
    let h = Reach-IsTidy balances c in
    (All-imp s.asked payable h.fed.asked, omega (arith, h.counted))
  where
    payable : (d : SendData) → accepts balances d ≡ true → IsPayable balances d
    payable d =
        fields-IsPayable balances d.diem_currency d.fiat_currency d.diem_amount d.diem_address
