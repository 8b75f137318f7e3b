-- ===== src/Session/Tests.antt =====
-- Sessions with a token and without one.
use reference_wallet.Base.{◌≡◌, ◌≢◌, ◌↔◌, refl, false, some, none, [], String}
use reference_wallet.Backend.Http.{backend_error, Result, err, LocalStorage, get_access_token}
use reference_wallet.Session.{component, logged_in_route, SubmitStatus, Signin, App, refresh_user}
use reference_wallet.Session.Laws.{refresh_user-ends_iff}

abbrev storage : LocalStorage
storage = record { token = some "abc" }

abbrev app : App
app = record { storage = storage; left = false }

abbrev expired : Result (Unit {0})
expired = err (backend_error "expired" 401)

app_route : logged_in_route storage "" ≡ component
unfolding logged_in_route get_access_token
app_route = refl

refresh_user-ends_iff_example :
    (logged_in_route (refresh_user expired app).storage "" ≢ component)
    ↔ ((message : String) × (expired ≡ err (backend_error message 401)))
refresh_user-ends_iff_example = refresh_user-ends_iff expired app "" app_route

abbrev signin : Signin
signin = record {
  username = "ada";
  password = "secret";
  demo_mode = false;
  submit_status = SubmitStatus.sending;
  error_message = none;
  awaiting = [];
}
