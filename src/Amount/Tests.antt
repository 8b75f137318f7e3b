-- ===== src/Amount/Tests.antt =====
-- Runs of frontend/src/utils/amount-precision.ts, most of them those of amountPrecision.test.ts.
use reference_wallet.Base.{codes, ◌≡◌, refl, false, true, some}
use reference_wallet.Amount.{
  whole, diem_amount_to_human_friendly, diem_amount_from_human_friendly,
  fiat_to_diem_human_friendly, fiat_to_human_friendly_rate,
}
use reference_wallet.Amount.RoundTrip.{diem_round_trip}

-- The character codes of a text.
scaled_test : diem_amount_from_human_friendly (codes "123456.123456") ≡ some 123456123456
unfolding diem_amount_from_human_friendly
scaled_test = refl

whole_test : diem_amount_from_human_friendly (codes "1234") ≡ some 1234000000
unfolding diem_amount_from_human_friendly
whole_test = refl

rounded_test : diem_amount_from_human_friendly (codes "123456.123456789") ≡ some 123456123457
unfolding diem_amount_from_human_friendly
rounded_test = refl

exponent_test : diem_amount_from_human_friendly (codes "1.5e+2x") ≡ some 150000000
unfolding diem_amount_from_human_friendly
exponent_test = refl

diem_shown_test : diem_amount_to_human_friendly (whole 123456123456) false ≡ codes "123456.123456"
unfolding diem_amount_to_human_friendly
diem_shown_test = refl

diem_whole_test : diem_amount_to_human_friendly (whole 123456000000) false ≡ codes "123456"
unfolding diem_amount_to_human_friendly
diem_whole_test = refl

diem_small_test : diem_amount_to_human_friendly (whole 1) false ≡ codes "0.000001"
unfolding diem_amount_to_human_friendly
diem_small_test = refl

fiat_shown_test : fiat_to_diem_human_friendly (whole 123456123456) true ≡ codes "123,456.12"
unfolding fiat_to_diem_human_friendly
fiat_shown_test = refl

fiat_small_test : fiat_to_diem_human_friendly (whole 10000) false ≡ codes "0.01"
unfolding fiat_to_diem_human_friendly
fiat_small_test = refl

fiat_zero_test : fiat_to_diem_human_friendly (whole 1) false ≡ codes "0.00"
unfolding fiat_to_diem_human_friendly
fiat_zero_test = refl

rate_test : fiat_to_human_friendly_rate (whole 123456123456) ≡ codes "123456.1235"
unfolding fiat_to_human_friendly_rate
rate_test = refl

diem_round_trip_example :
    diem_amount_from_human_friendly (diem_amount_to_human_friendly (whole 1234500000) false)
    ≡ some 1234500000
diem_round_trip_example = diem_round_trip 1234500000
