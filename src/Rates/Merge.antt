-- ===== src/Rates/Merge.antt =====
-- What the merged rates are, currency pair by currency pair.
use reference_wallet.Base.{
  ℕ, ◌≡◌, ◌∙◌, sym, ap, subst, inl, inr, refl, Bool, true, false, ◌&&◌, Option, none, some, List,
  [], ◌∷◌, arith, Bool-cases, if◌then◌else◌,
}
use reference_wallet.Amount.Text.{Fraction}
use reference_wallet.Options.{assign, lookup}
use reference_wallet.Options.Lookup.{lookup-assign}
use reference_wallet.Send.Intents.{text_eq}
use reference_wallet.Send.Intents.TextEq.{text_eq→eq, text_eq_iff}
use reference_wallet.Rates.{Rate, Currencies, currency_of, fiat_of, set_rate, merge_rates, rate_of}

abbrev pub is_known : Currencies → List ℕ → Bool
is_known [] currency = false
is_known ((c, rates) ∷ cs) currency = if text_eq c currency then true else is_known cs currency

-- The rates before the first one of a currency that the settings do not know.
abbrev pub known_part : Currencies → List Rate → List Rate
known_part cs [] = []
known_part cs (r ∷ rs) = if is_known cs (currency_of r) then r ∷ known_part cs rs else []

abbrev pub all_known : Currencies → List Rate → Bool
all_known cs [] = true
all_known cs (r ∷ rs) = is_known cs (currency_of r) && all_known cs rs

-- The price of the last rate of a pair, if there is one.
abbrev pub last_price : List ℕ → List ℕ → List Rate → Option Fraction → Option Fraction
last_price c f [] found = found
last_price c f (r ∷ rs) found =
    last_price c f rs
      (if text_eq (currency_of r) c && text_eq (fiat_of r) f then some r.price else found)

set_rate-none :
    (currency fiat : List ℕ) (price : Fraction) (cs : Currencies)
    → is_known cs currency ≡ false
    → set_rate currency fiat price cs ≡ none
unfolding set_rate
set_rate-none currency fiat price [] h = refl
set_rate-none currency fiat price ((c, rates) ∷ cs) h = elim (Bool-cases (text_eq c currency)) [
  | inl hit ↦ absurd (ground (arith, h, hit))
  | inr miss ↦ rw (miss, set_rate-none currency fiat price cs (ground (arith, h, miss))) refl
]

-- What a write of a known currency leaves.
record IsWritten (currency fiat : List ℕ) (price : Fraction) (cs ds : Currencies) : Type 0 where
  at_pair :
      (c f : List ℕ)
      → rate_of c f ds
        ≡ (if text_eq currency c && text_eq fiat f then some price else rate_of c f cs)
  knows : (c : List ℕ) → is_known ds c ≡ is_known cs c

hit-IsWritten :
    (currency fiat : List ℕ) (price : Fraction) (rates : List (List ℕ × Fraction)) (cs : Currencies)
    → IsWritten currency fiat price
        ((currency, rates) ∷ cs)
        ((currency, assign text_eq fiat price rates) ∷ cs)
unfolding lookup
hit-IsWritten currency fiat price rates cs = record {
  at_pair = λ c f. elim (Bool-cases (text_eq currency c)) [
    | inl hit ↦ rw hit (lookup-assign text_eq text_eq_iff f fiat price rates)
    | inr miss ↦ rw miss refl
  ];
  knows = λ c. refl;
}

other_key :
    (currency k c : List ℕ)
    → text_eq k currency ≡ false
    → text_eq k c ≡ true
    → text_eq currency c ≡ false
other_key currency k c m hit = elim (Bool-cases (text_eq currency c)) [
  | inl same ↦ absurd (
      ground (
        arith,
        m,
        (text_eq_iff k currency).1 (text_eq→eq k c hit ∙ sym (text_eq→eq currency c same)),
      ))
  | inr off ↦ off
]

miss-IsWritten :
    (currency fiat k : List ℕ) (price : Fraction) (rates : List (List ℕ × Fraction))
    (cs ds : Currencies)
    → text_eq k currency ≡ false
    → IsWritten currency fiat price cs ds
    → IsWritten currency fiat price ((k, rates) ∷ cs) ((k, rates) ∷ ds)
unfolding lookup
miss-IsWritten currency fiat k price rates cs ds m h = record {
  at_pair = λ c f. elim (Bool-cases (text_eq k c)) [
    | inl hit ↦ rw (hit, other_key currency k c m hit) refl
    | inr miss ↦ rw miss (h.at_pair c f)
  ];
  knows = λ c. rw (h.knows c) refl;
}

set_rate-IsWritten :
    (currency fiat : List ℕ) (price : Fraction) (cs : Currencies)
    → is_known cs currency ≡ true
    → (ds : Currencies) × (set_rate currency fiat price cs ≡ some ds)
      × IsWritten currency fiat price cs ds
unfolding set_rate
set_rate-IsWritten currency fiat price [] h = absurd (ground (arith, h))
set_rate-IsWritten currency fiat price ((k, rates) ∷ cs) h =
    elim (Bool-cases (text_eq k currency)) [
      | inl hit ↦ (
        (k, assign text_eq fiat price rates) ∷ cs,
        rw hit refl,
        subst
            (λ (c : List ℕ).
              IsWritten currency fiat price ((c, rates) ∷ cs)
                ((c, assign text_eq fiat price rates) ∷ cs))
            (sym (text_eq→eq k currency hit)) (hit-IsWritten currency fiat price rates cs),
      )
      | inr miss ↦
          let (ds, e, set) = set_rate-IsWritten currency fiat price cs (ground (arith, h, miss)) in
          (
            (k, rates) ∷ ds,
            rw (miss, e) refl,
            miss-IsWritten currency fiat k price rates cs ds miss set,
          )
    ]

same_known :
    (cs ds : Currencies) (rates : List Rate)
    → ((c : List ℕ) → is_known ds c ≡ is_known cs c)
    → (known_part ds rates ≡ known_part cs rates) × (all_known ds rates ≡ all_known cs rates)
same_known cs ds [] h = (refl, refl)
same_known cs ds (r ∷ rs) h =
    let (parts, all) = same_known cs ds rs h in
    (rw (h (currency_of r), parts) refl, rw (h (currency_of r), all) refl)

-- All rates before the first one of an unknown currency are merged, the last one of a pair is the one
-- that stays, pairs without a rate keep theirs, and the loop comes to its end just when all
-- currencies are known.
pub merge_rates-refines :
    (cs : Currencies) (rates : List Rate) (c f : List ℕ)
    → (rate_of c f (merge_rates cs rates).0 ≡ last_price c f (known_part cs rates) (rate_of c f cs))
      × ((merge_rates cs rates).1 ≡ all_known cs rates)
unfolding merge_rates
merge_rates-refines cs [] c f = (refl, refl)
merge_rates-refines cs (r ∷ rs) c f = elim (Bool-cases (is_known cs (currency_of r))) [
  | inl known ↦
      let (ds, e, set) = set_rate-IsWritten (currency_of r) (fiat_of r) r.price cs known in
      let (parts, all) = same_known cs ds rs set.knows in
      let (after, ended) = merge_rates-refines ds rs c f in
      let spec : last_price c f (known_part ds rs) (rate_of c f ds)
          ≡ last_price c f (r ∷ known_part cs rs) (rate_of c f cs) =
        ap (λ (rest : List Rate). last_price c f rest (rate_of c f ds)) parts
        ∙ ap (last_price c f (known_part cs rs)) (set.at_pair c f) in
      rw (known, e) (after ∙ spec, ended ∙ all)
  | inr unknown ↦
      rw (unknown, set_rate-none (currency_of r) (fiat_of r) r.price cs unknown) (refl, refl)
]
