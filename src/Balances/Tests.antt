-- ===== src/Balances/Tests.antt =====
-- The balances of an account at concrete rates.
use mathlib.Core.List
use reference_wallet.Base.{ℕ, ◌+◌, ◌≤◌, ◌*◌, ◌≡◌, refl, some, List, [], ◌∷◌, codes, arith}
use reference_wallet.Amount.{whole}
use reference_wallet.Amount.Text.{Fraction}
use reference_wallet.Options.{lookup}
use reference_wallet.Rates.{Currencies}
use reference_wallet.Send.Intents.{text_eq}
use reference_wallet.Balances.{CurrencyBalance, price_of, show_balances, show_total}
use reference_wallet.Balances.Shown.{cents_text, sum_cents, prices_shown, show_total_near}

-- The rates are those of the backend, in millionths.
abbrev currencies : Currencies
currencies =
    (codes "XUS", (codes "EUR", whole 850000) ∷ [])
    ∷ (codes "XDM", (codes "EUR", whole 3) ∷ [])
    ∷ []

abbrev balances : List CurrencyBalance
balances =
    record { currency = codes "XUS"; balance = 2000000 }
    ∷ record { currency = codes "XDM"; balance = 500000 }
    ∷ []

total_text : show_total currencies (codes "EUR") balances ≡ some (codes "1.70")
unfolding show_total lookup text_eq
total_text = refl

abbrev halves : Currencies
halves =
    (codes "XUS", (codes "EUR", whole 5000) ∷ [])
    ∷ (codes "XDM", (codes "EUR", whole 5000) ∷ [])
    ∷ []

abbrev units : List CurrencyBalance
units =
    record { currency = codes "XUS"; balance = 1000000 }
    ∷ record { currency = codes "XDM"; balance = 1000000 }
    ∷ []

-- Half a hundredth is shown as a hundredth at each of two balances, and so is their total.
halves_text :
    (prices_shown halves (codes "EUR") units ≡ some (codes "0.01") ∷ some (codes "0.01") ∷ [])
    × (show_total halves (codes "EUR") units ≡ some (codes "0.01"))
unfolding show_total show_balances lookup text_eq
halves_text = (refl, refl)

abbrev paid : List Fraction
paid =
    record { num = 2000000 * 850000; den = 1000000 * 1 }
    ∷ record { num = 500000 * 3; den = 1000000 * 1 }
    ∷ []

show_total_near_example :
    (cs : List ℕ) × (total : ℕ) × (prices_shown currencies (codes "EUR") balances
      ≡ List.map (λ c. some (cents_text c)) cs)
    × (show_total currencies (codes "EUR") balances ≡ some (cents_text total))
    × (2 * total ≤ 2 * sum_cents cs + 2 + 1)
    × (2 * sum_cents cs ≤ 2 * total + 2)
unfolding price_of lookup text_eq
show_total_near_example =
    show_total_near currencies (codes "EUR") balances paid
      (refl, (omega arith), (refl, (omega arith), tt))
