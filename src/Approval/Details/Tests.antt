-- ===== src/Approval/Details/Tests.antt =====
-- Details of one approval.
use reference_wallet.Base.{◌≡◌, refl, true, none, some, [], ◌∷◌, codes}
use reference_wallet.Transactions.{Settings}
use reference_wallet.Approval.Details.{
  Scope, UnitType, single_payment, total_payments, no_limits, limits_of,
}

abbrev settings : Settings
settings = record {
  currencies = (codes "XUS", record { sign = codes "XUS"; rates = [] }) ∷ [];
  fiat_currencies = [];
  default_fiat_currency_code = codes "USD";
}

abbrev unlimited : Scope
unlimited = record {
  expiration_timestamp = 7;
  max_cumulative_amount = none;
  max_transaction_amount = none;
}

abbrev limited : Scope
limited = record {
  expiration_timestamp = 7;
  max_cumulative_amount = some (record {
    unit = UnitType.week;
    value = 2;
    max_amount = record { amount = 5000000; currency = codes "XUS" };
  });
  max_transaction_amount = some (record { amount = 1000000; currency = codes "XUS" });
}

no_limits_shown : limits_of settings unlimited ≡ some (no_limits ∷ [])
unfolding limits_of
no_limits_shown = refl

limits_shown :
    limits_of settings limited
    ≡ some
        (single_payment (codes "1 XUS") ∷ total_payments (codes "5 XUS") 2 UnitType.week true ∷ [])
unfolding limits_of
limits_shown = refl
