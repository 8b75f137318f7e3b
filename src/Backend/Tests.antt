-- ===== src/Backend/Tests.antt =====
-- Calls of frontend/src/services/backendClient.ts against small servers, and the theorems at them.
use text.Mathlib.Text.{◌==◌ as str_eq}
use reference_wallet.Base.{◌≡◌, refl, false, none, some, [], ◌∷◌, if◌then◌else◌}
use reference_wallet.Payment.Params.{PaymentDetails}
use reference_wallet.Backend.Http.{
  null, HttpRequest, Reply, resolved, axios_error, ErrorResponse, backend_error, unexpected, err,
  LocalStorage, BackendClient, new_client, store_access_token, remove_access_token, perform,
}
use reference_wallet.Backend.User.{get_payment_methods}
use reference_wallet.Backend.Admin.{settle_debts}
use reference_wallet.Backend.Laws.{Settled, settle_debts-Settled, logged}

abbrev storage : LocalStorage
storage = record { token = none }

abbrev client : BackendClient
client = new_client none (store_access_token "t0" storage)

client_test :
    (client ≡ record { base_url = "/api"; authorization = "Bearer t0" })
    × (new_client (some "/x") (remove_access_token storage)
        ≡ record { base_url = "/x"; authorization = "Bearer undefined" })
unfolding new_client store_access_token remove_access_token
client_test = (refl, refl)

-- A server that refuses to settle the debt "d2".
abbrev server : Unit {0} → HttpRequest → Unit {0} × Reply
server s request = (
  s,
  if str_eq request.url "/api/admin/settlement/d2"
      then axios_error (some (record { status = 404; error = none; code = none }))
      else resolved null,
)

settle_test :
    (settle_debts server client ("d1" ∷ "d2" ∷ "d3" ∷ []) "ok" tt).1
    ≡ err (backend_error "Unexpected error occurred (404)" 404)
unfolding settle_debts new_client store_access_token
settle_test = refl

payment_methods_test : (perform server client get_payment_methods tt).1 ≡ err unexpected
unfolding perform get_payment_methods new_client store_access_token
payment_methods_test = refl

abbrev conflict : ErrorResponse
conflict = record { status = 409; error = some "taken"; code = none }

settle_debts-Settled_example :
    Settled server client "ok"
      ("d1" ∷ "d2" ∷ "d3" ∷ [])
      []
      tt
      (settle_debts (logged server) client ("d1" ∷ "d2" ∷ "d3" ∷ []) "ok" ([], tt))
settle_debts-Settled_example =
    settle_debts-Settled server client "ok" ("d1" ∷ "d2" ∷ "d3" ∷ []) [] tt

abbrev details : PaymentDetails
details = record {
  action = "CHARGE";
  amount = 1000000;
  currency = "XUS";
  expiration = 1607423942;
  merchant_name = "Bond & Gurki Pet Store";
  reference_id = "ce74d678";
  vasp_address = "tdm1p";
  demo = false;
}
