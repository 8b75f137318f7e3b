-- ===== src/Mobile/Client/Same.antt =====
-- Where the mobile client does what the web client does.
use text.Mathlib.Text.{◌==◌ as str_eq}
use reference_wallet.Base.{ℕ, ◌≡◌, ◌↔◌, refl, ap, false, some, String, arith}
use reference_wallet.Backend.Http.{
  Call, Exception, backend_error, username_already_exists, unexpected, ErrorResponse, LocalStorage,
  get_access_token, store_access_token, request_of, or_number,
}
use reference_wallet.Backend.Http
use reference_wallet.Mobile.Client.{new_client, handle_error}

abbrev pub status_part : Exception → ℕ
status_part (backend_error message status) = status
status_part _ = 0

or_zero_self : (n : ℕ) → or_number (some n) 0 ≡ n
or_zero_self n = ground arith

errors_agree :
    (r : ErrorResponse)
    → (handle_error (some r) ≡ Http.handle_error (some r)) ↔ (or_number r.code r.status ≡ r.status)
unfolding handle_error Http.handle_error
errors_agree r = (
  λ e. ground (arith, ap status_part e, or_zero_self r.status),
  λ e. rw (e, or_zero_self r.status) refl,
)

-- When both are given the same address and a token that is not empty, the two clients send the same
-- request for a call, and they make the same exception of an error response just when its code is
-- missing, 0, or its status.
clients_agree :
    {A : Type 0} (url token : String) (storage : LocalStorage) (c : Call A) (r : ErrorResponse)
    → str_eq url "" ≡ false
    → str_eq token "" ≡ false
    → (request_of (new_client (some url) (some token)) c
        ≡ request_of (Http.new_client (some url) (store_access_token token storage)) c)
      × ((handle_error (some r) ≡ Http.handle_error (some r))
          ↔ (or_number r.code r.status ≡ r.status))
unfolding new_client Http.new_client store_access_token get_access_token
clients_agree url token storage c r u t = (rw (u, t) refl, errors_agree r)
