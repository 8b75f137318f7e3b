-- ===== src/Options/Lookup.antt =====
-- What the objects of frontend/src/utils/dropdown-options.ts hold at a key.
use text.Mathlib.Text.{◌==◌ as str_eq}
use text.Mathlib.TextEquality.{eq_iff}
use reference_wallet.Base.{
  ◌≡◌, ◌↔◌, ◌∙◌, sym, inl, inr, refl, Bool, true, false, Option, none, some, List, [], ◌∷◌, String,
  if◌then◌else◌, arith, Bool-cases,
}
use reference_wallet.Options.{
  assign, lookup, collect, CurrencySettings, CurrencyBalance, balance_label,
  currencies_with_balance_options,
}

module _ {K : Type 0} (same : K → K → Bool)
    (same_iff : (i j : K) → (same i j ≡ true) ↔ (i ≡ j)) where
  same_trans : (i j k : K) → same i j ≡ true → same j k ≡ same i k
  same_trans i j k h = ground (arith, (same_iff i j).0 h)

  same-apart : (i j k : K) → same i j ≡ false → same i k ≡ true → same j k ≡ false
  same-apart i j k h e = elim (Bool-cases (same j k)) [
    | inl at ↦
        absurd
          (ground (arith, h, (same_iff i j).1 ((same_iff i k).0 e ∙ sym ((same_iff j k).0 at))))
    | inr off ↦ off
  ]

  pub lookup-assign :
      {V : Type 0} (k j : K) (v : V) (fields : List (K × V))
      → lookup same k (assign same j v fields) ≡ (if same j k then some v else lookup same k fields)
  unfolding lookup assign
  lookup-assign k j v [] = refl
  lookup-assign k j v ((i, u) ∷ fields) = elim (Bool-cases (same i j)) [
    | inl at ↦ ground (arith, at, same_trans i j k at)
    | inr off ↦ elim (Bool-cases (same i k)) [
      | inl hit ↦ ground (arith, off, hit, same-apart i j k off hit)
      | inr miss ↦ ground (arith, off, miss, lookup-assign k j v fields)
    ]
  ]

  -- The value of the last item with a key, if there is one.
  pub last_value : {A V : Type 0} → (A → K) → (A → V) → K → Option V → List A → Option V
  last_value key value k found [] = found
  last_value key value k found (item ∷ items) =
      last_value key value k (if same (key item) k then some (value item) else found) items

  lookup-collect :
      {A V : Type 0} (key : A → K) (value : A → V) (k : K) (fields : List (K × V)) (items : List A)
      → lookup same k (collect same key value fields items)
        ≡ last_value key value k (lookup same k fields) items
  unfolding collect last_value
  lookup-collect key value k fields [] = refl
  lookup-collect key value k fields (item ∷ items) =
      lookup-collect key value k (assign same (key item) (value item) fields) items
      ∙ rw (lookup-assign k (key item) (value item) fields) refl

-- The dropdown shows at a currency the name, balance and sign of the last balance of that currency,
-- and nothing for a currency without a balance.
lookup-currencies_with_balance_options :
    (currencies : String → CurrencySettings) (balances : List CurrencyBalance) (c : String)
    → lookup str_eq c (currencies_with_balance_options currencies balances)
      ≡ last_value str_eq eq_iff
          (λ (b : CurrencyBalance). b.currency)
          (λ b. balance_label (currencies b.currency) b.balance)
          c
          none
          balances
unfolding currencies_with_balance_options lookup
lookup-currencies_with_balance_options currencies balances c =
    lookup-collect str_eq eq_iff (λ b. b.currency)
      (λ b. balance_label (currencies b.currency) b.balance) c [] balances
