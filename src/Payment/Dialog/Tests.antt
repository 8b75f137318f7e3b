-- ===== src/Payment/Dialog/Tests.antt =====
-- Runs of the payment dialog, and the theorems at concrete inputs. The browser reads every query
-- string as the short link of one merchant.
use text.Mathlib.Text.{◌==◌ as str_eq}
use reference_wallet.Base.{◌≡◌, refl, Bool, true, false, none, some, [], ◌∷◌}
use reference_wallet.Payment.Params.{PaymentParams, Browser, charge, payment_request, positive}
use reference_wallet.Payment.Dialog.{
  Modal, title, payment_approved, mount, approve_pressed, reject_pressed, timer, settled, step,
}
use reference_wallet.Payment.Dialog.Runs.{Reach, has_reject, approved_title-rejected}

abbrev payment : Bool → PaymentParams
payment is_demo = record {
  is_full = true;
  vasp_address = "tdm1p";
  reference_id = "ce74d678";
  demo = is_demo;
  merchant_name = some "merchant-name";
  checkout_data_type = some payment_request;
  action = some charge;
  currency = some "XUS";
  amount = some (positive (record { num = 1000000000; den = 1 }));
  expiration = none;
  redirect_url = some "https://merchant.com";
}

abbrev rejected : Modal
rejected = step (payment false) (step (payment false) mount reject_pressed) (settled 0 true)

rejected-Reach : Reach (payment false) rejected
rejected-Reach = Reach.next (settled 0 true) (Reach.next reject_pressed Reach.mounted)

rejected_title : title rejected ≡ payment_approved
unfolding title step mount
rejected_title = refl

approved_title-rejected_example : has_reject rejected.answered ≡ true
approved_title-rejected_example = approved_title-rejected refl rejected-Reach rejected_title

abbrev demo_done : Modal
demo_done = step (payment true) (step (payment true) mount approve_pressed) timer

demo_title : title demo_done ≡ payment_approved
unfolding title step mount
demo_title = refl

abbrev browser : Browser
browser = record {
  search_params = λ q.
      ("vaspAddress", "tdm1p")
      ∷ ("referenceId", "ce74d678")
      ∷ ("redirectUrl", "https://merchant.com")
      ∷ [];
  is_url = λ u. true;
  is_uuid = λ u. str_eq u "ce74d678";
  to_number = λ t. none;
  to_date = λ t. none;
  to_iso_string = λ d. "";
  to_lower_case = λ t. t;
}
