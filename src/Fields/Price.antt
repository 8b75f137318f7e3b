-- ===== src/Fields/Price.antt =====
-- Between the price that is typed and the price of the amount that it sets.
use reference_wallet.Base.{ℕ, ◌+◌, ◌*◌, ◌≤◌, ◌<◌}
use reference_wallet.Amount.Text.{Fraction}
use reference_wallet.Fields.{calc_price}

-- The price `calc_price exchange_rate y` is within half a unit of the amount of the price `p`.
abbrev pub IsNear : Fraction → ℕ → Fraction → Type 0
IsNear exchange_rate p y =
    (2 * (calc_price exchange_rate y).num
      ≤ 2 * (p * (calc_price exchange_rate y).den) + exchange_rate.num)
    × (2 * (p * (calc_price exchange_rate y).den)
        < 2 * (calc_price exchange_rate y).num + exchange_rate.num)
