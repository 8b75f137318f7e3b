-- ===== src/Fields/Tests.antt =====
-- Typed amounts and prices, and the theorem at concrete ones.
use reference_wallet.Amount.{whole}
use reference_wallet.Amount.Text.{Fraction}

-- 3 units of fiat a unit of the currency.
abbrev three : Fraction
three = whole 3
