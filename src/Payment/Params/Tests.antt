-- ===== src/Payment/Params/Tests.antt =====
-- Links of frontend/src/utils/paymentParams.test.ts, and the theorems at concrete links. The query is
-- the text "full", "short" or "plain" of a browser that splits it into the test's parameters.
use text.Mathlib.Text.{◌==◌ as str_eq}
use reference_wallet.Base.{
  ◌≡◌, ◌↔◌, refl, true, false, none, some, List, [], ◌∷◌, String, if◌then◌else◌,
}
use reference_wallet.Amount.{whole}
use reference_wallet.Payment.Params.{
  positive, negative, since, nonzero_number, PaymentParams, Browser, ok, err, not_found,
  payment_request, charge, short_params, params_of, get_param, full_params, to_checkout_data_type,
  to_action, is_demo, from_url_query_string,
}
use reference_wallet.Payment.Params.Relation.{Accepts}
use reference_wallet.Payment.Params.Accepts.{from_url_query_string_iff}

abbrev short_link : List (String × String)
short_link =
    ("vaspAddress", "tdm1p")
    ∷ ("referenceId", "ce74d678")
    ∷ ("redirectUrl", "https://merchant.com")
    ∷ ("demo", "true")
    ∷ []

abbrev full_link : List (String × String)
full_link =
    ("vaspAddress", "tdm1p")
    ∷ ("referenceId", "ce74d678")
    ∷ ("merchantName", "merchant-name")
    ∷ ("checkoutDataType", "PAYMENT_REQUEST")
    ∷ ("action", "CHARGE")
    ∷ ("amount", "1000000000")
    ∷ ("currency", "XUS")
    ∷ ("expiration", "2020-01-21T00:00:00.000Z")
    ∷ ("redirectUrl", "https://merchant.com")
    ∷ []

abbrev plain_link : List (String × String)
plain_link =
    ("vaspAddress", "tdm1p")
    ∷ ("checkoutDataType", "PAYMENT_REQUEST")
    ∷ ("referenceId", "ce74d678")
    ∷ ("redirectUrl", "https://merchant.com")
    ∷ ("demo", "true")
    ∷ []

abbrev browser : Browser
browser = record {
  search_params = λ q.
      if str_eq q "short" then short_link else if str_eq q "full" then full_link else plain_link;
  is_url = λ u. str_eq u "https://merchant.com";
  is_uuid = λ u. str_eq u "ce74d678";
  to_number = λ t. if str_eq t "1000000000" then some (positive (whole 1000000000)) else none;
  to_date = λ t. if str_eq t "2020-01-21T00:00:00.000Z" then some (since 1579564800000) else none;
  to_iso_string = λ d. "2020-01-21T00:00:00.000Z";
  to_lower_case = λ t. t;
}

abbrev full_payment : PaymentParams
full_payment = record {
  is_full = true;
  vasp_address = "tdm1p";
  reference_id = "ce74d678";
  demo = false;
  merchant_name = some "merchant-name";
  checkout_data_type = some payment_request;
  action = some charge;
  currency = some "XUS";
  amount = some (positive (whole 1000000000));
  expiration = some (since 1579564800000);
  redirect_url = some "https://merchant.com";
}

abbrev short_payment : PaymentParams
short_payment = record {
  is_full = false;
  vasp_address = "tdm1p";
  reference_id = "ce74d678";
  demo = false;
  merchant_name = none;
  checkout_data_type = none;
  action = none;
  currency = none;
  amount = none;
  expiration = none;
  redirect_url = some "https://merchant.com";
}

full_test : from_url_query_string browser "full" ≡ ok full_payment
unfolding from_url_query_string params_of get_param full_params short_params to_checkout_data_type
    to_action is_demo
full_test = refl

short_test : from_url_query_string browser "short" ≡ ok short_payment
unfolding from_url_query_string params_of get_param full_params short_params to_checkout_data_type
    to_action is_demo
short_test = refl

missing_test : from_url_query_string browser "plain" ≡ err (not_found "merchantName")
unfolding from_url_query_string params_of get_param full_params short_params to_checkout_data_type
    to_action is_demo
missing_test = refl

-- A negative amount is taken.
negative_amount : nonzero_number (some (negative (whole 5))) ≡ ok (negative (whole 5))
negative_amount = refl

from_url_query_string_iff_example :
    (from_url_query_string browser "full" ≡ ok full_payment)
    ↔ Accepts browser full_link full_payment
from_url_query_string_iff_example = from_url_query_string_iff browser "full" full_payment
