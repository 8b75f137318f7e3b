-- ===== src/Session/Laws.antt =====
-- When a session begins and ends.
use text.Mathlib.Text.{◌==◌ as str_eq}
use reference_wallet.Base.{
  ◌≡◌, ◌≢◌, ◌↔◌, inl, inr, refl, ap, true, false, String, arith, Bool-cases, ==_iff,
}
use reference_wallet.Backend.Http.{
  Exception, backend_error, username_already_exists, unexpected, Result, ok, err, LocalStorage,
  store_access_token, get_access_token, remove_access_token,
}
use reference_wallet.Session.{
  component, is_some, logged_in_route, logged_out_route, Signin, finish_signin, SubmitStatus, App,
  is_unauthorized, catch_refresh, refresh_user,
}

has_token-component :
    (storage : LocalStorage) (query_string : String)
    → (logged_in_route storage query_string ≡ component)
      ↔ (is_some (get_access_token storage) ≡ true)
unfolding logged_in_route
has_token-component storage query_string = (λ e. ground arith, λ e. ground arith)

-- Whatever the storage holds, exactly one of the two kinds of route renders its component.
one_route :
    (storage : LocalStorage) (query_string : String)
    → (logged_in_route storage query_string ≡ component) ↔ (logged_out_route storage ≢ component)
unfolding logged_in_route logged_out_route
one_route storage query_string = elim (Bool-cases (is_some (get_access_token storage))) [
  | inl on ↦ rw on (λ e p. cc, λ e. refl)
  | inr off ↦ rw off (λ e. absurd (cc), λ e. absurd (e refl))
]

removed-ends :
    (storage : LocalStorage) (query_string : String)
    → logged_in_route (remove_access_token storage) query_string ≢ component
unfolding logged_in_route remove_access_token get_access_token
removed-ends storage query_string p = cc

unauthorized_iff :
    (e : Exception)
    → (is_unauthorized e ≡ true) ↔ ((message : String) × (e ≡ backend_error message 401))
unauthorized_iff (backend_error message status) = (
  λ h. (message, ground (arith, (==_iff status 401).0 h)),
  λ (m, h). (==_iff status 401).1 (status-of h),
)
  where
    status-of : {m : String} → backend_error message status ≡ backend_error m 401 → status ≡ 401
    status-of h = cc
unauthorized_iff username_already_exists = (λ h. absurd (cc), λ (m, h). absurd (cc))
unauthorized_iff unexpected = (λ h. absurd (cc), λ (m, h). absurd (cc))

-- A refresh ends a session exactly when it fails with a BackendError of status 401; after any other
-- end the routes for signed-in users still render.
pub refresh_user-ends_iff :
    {A : Type 0} (r : Result A) (a : App) (query_string : String)
    → logged_in_route a.storage query_string ≡ component
    → (logged_in_route (refresh_user r a).storage query_string ≢ component)
      ↔ ((message : String) × (r ≡ err (backend_error message 401)))
unfolding refresh_user catch_refresh
refresh_user-ends_iff (ok x) a q h = (λ n. absurd (n h), λ (m, e). absurd (cc))
refresh_user-ends_iff {A} (err e) a q h =
    rw ((has_token-component a.storage q).0 h) (elim (Bool-cases (is_unauthorized e)) [
      | inl on ↦ (
        λ n. let (m, p) = (unauthorized_iff e).0 on in (m, ap err p),
        λ p. rw on (removed-ends a.storage q),
      )
      | inr off ↦ (λ n. absurd (n (rw off h)), λ (m, p). absurd (other e m off (err-injective p)))
    ])
  where
    err-injective :
        {m : String} → Path (Result A) (err e) (err (backend_error m 401)) → e ≡ backend_error m 401
    err-injective p = cc

    other : (e : Exception) (m : String) → is_unauthorized e ≡ false → e ≡ backend_error m 401 → ⊥
    other e m off p = ground (arith, off, (unauthorized_iff e).1 (m, p))

-- After a sign-in that the backend answers with a token that is not empty, the form has succeeded and
-- the routes for signed-in users render; after a failure the storage is as it was.
finish_signin-admits :
    (token : String) (e : Exception) (s : Signin) (storage : LocalStorage) (query_string : String)
    → str_eq token "" ≡ false
    → (logged_in_route (finish_signin (ok token) (s, storage)).1 query_string ≡ component)
      × ((finish_signin (ok token) (s, storage)).0.submit_status ≡ SubmitStatus.success)
      × ((finish_signin (err e) (s, storage)).0.submit_status ≡ SubmitStatus.fail)
      × ((finish_signin (err e) (s, storage)).1 ≡ storage)
unfolding logged_in_route finish_signin store_access_token get_access_token
finish_signin-admits token e s storage q h = rw h (refl, refl, refl, refl)
