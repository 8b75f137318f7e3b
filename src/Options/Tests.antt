-- ===== src/Options/Tests.antt =====
-- Options of a wallet with two balances.
use reference_wallet.Base.{◌≡◌, refl, List, [], ◌∷◌}
use reference_wallet.Options.{CurrencyBalance, payment_method_options}

abbrev balances : List CurrencyBalance
balances =
    record { currency = "XUS"; balance = 5000000 } ∷ record { currency = "EUR"; balance = 1 } ∷ []

methods_test :
    payment_method_options (record { id = 3; name = "A" } ∷ record { id = 3; name = "B" } ∷ [])
    ≡ (3, "B") ∷ []
unfolding payment_method_options
methods_test = refl
