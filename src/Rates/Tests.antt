-- ===== src/Rates/Tests.antt =====
-- Merged rates, and the theorem at concrete ones.
use reference_wallet.Base.{codes, ◌≡◌, refl, false, some, List, [], ◌∷◌}
use reference_wallet.Amount.{whole}
use reference_wallet.Options.{lookup}
use reference_wallet.Rates.{Rate, Currencies, merge_rates, rate_of}
use reference_wallet.Rates.Merge.{merge_rates-refines, last_price, known_part, all_known}

abbrev known : Currencies
known = (codes "XUS", []) ∷ []

abbrev rates : List Rate
rates =
    record { currency_pair = codes "XUS_EUR"; price = whole 2 }
    ∷ record { currency_pair = codes "XUS_EUR"; price = whole 3 }
    ∷ record { currency_pair = codes "ABC_EUR"; price = whole 5 }
    ∷ []

last_wins : rate_of (codes "XUS") (codes "EUR") (merge_rates known rates).0 ≡ some (whole 3)
unfolding merge_rates lookup
last_wins = refl

unknown_stops : (merge_rates known rates).1 ≡ false
unfolding merge_rates
unknown_stops = refl

merge_rates-refines_example :
    (rate_of (codes "XUS") (codes "EUR") (merge_rates known rates).0
      ≡ last_price
          (codes "XUS")
          (codes "EUR")
          (known_part known rates)
          (rate_of (codes "XUS") (codes "EUR") known))
    × ((merge_rates known rates).1 ≡ all_known known rates)
merge_rates-refines_example = merge_rates-refines known rates (codes "XUS") (codes "EUR")
