-- ===== src/Rates.antt =====
-- The exchange rates that `refreshUser` of frontend/src/App.tsx merges into the settings. The loop
-- writes into the `rates` objects of the settings in place: what it has written before a `TypeError`
-- stays.
pub mod Merge
mod Tests
use reference_wallet.Base.{
  ℕ, Bool, true, false, ◌&&◌, Option, none, some, List, [], ◌∷◌, get_elem?, if◌then◌else◌, ◌>>=◌,
}
use mathlib.Core.Option
use reference_wallet.Amount.Text.{Fraction}
use reference_wallet.Options.{assign, lookup}
use reference_wallet.Send.Intents.{text_eq, split_on, value_text}

-- `Rate` of interfaces/cico.ts.
pub record Rate : Type 0 where
  pub currency_pair : List ℕ
  pub price : Fraction

-- The currencies of the settings, and the `rates` of each.
abbrev pub Currencies : Type 0
Currencies = List (List ℕ × List (List ℕ × Fraction))

abbrev pub or_empty : Option (List ℕ) → List ℕ
or_empty none = []
or_empty (some t) = t

-- `const [currency, fiatCurrency] = rate.currency_pair.split("_")`; a missing part is the key
-- "undefined".
unfoldable pub currency_of : Rate → List ℕ
unfolding split_on
currency_of r = or_empty (get_elem? (split_on b'_' r.currency_pair) 0)

unfoldable pub fiat_of : Rate → List ℕ
unfolding split_on
fiat_of r = value_text (get_elem? (split_on b'_' r.currency_pair) 1)

-- `currencies[currency].rates[fiatCurrency] = price`; `none` is the `TypeError` of an unknown currency.
unfoldable pub set_rate : List ℕ → List ℕ → Fraction → Currencies → Option Currencies
unfolding text_eq assign
set_rate currency fiat price [] = none
set_rate currency fiat price ((c, rates) ∷ cs) =
    let rest = set_rate currency fiat price cs in
    if text_eq c currency
    then some ((c, assign text_eq fiat price rates) ∷ cs)
    else Option.map (λ ds. (c, rates) ∷ ds) rest

-- The loop, and whether it came to its end.
abbrev pub or_stop :
    Currencies → Option Currencies → (Currencies → Currencies × Bool) → Currencies × Bool
or_stop cs none go_on = (cs, false)
or_stop cs (some ds) go_on = go_on ds

unfoldable pub merge_rates : Currencies → List Rate → Currencies × Bool
unfolding set_rate currency_of fiat_of
merge_rates cs [] = (cs, true)
merge_rates cs (r ∷ rs) =
    or_stop cs (set_rate (currency_of r) (fiat_of r) r.price cs) (λ ds. merge_rates ds rs)

abbrev pub rate_of : List ℕ → List ℕ → Currencies → Option Fraction
rate_of c f cs = lookup text_eq c cs >>= lookup text_eq f
