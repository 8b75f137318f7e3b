-- ===== src/Backend/Admin.antt =====
-- The methods "Admin" of frontend/src/services/backendClient.ts.
use reference_wallet.Base.{
  Option, none, some, String, ℕ, List, [], ◌∷◌, Bool, true, false, if◌then◌else◌, ◌==◌,
}
use reference_wallet.Backend.Http.{
  Value, Call, string, bool, end, field, get_field, join, show_nat, show_bool, get_call, post_call,
  put_call, nothing, HttpRequest, Reply, resolved, axios_error, thrown, ErrorResponse, Result, ok,
  err, username_already_exists, unexpected, handle_error, request_of, perform, put, BackendClient,
}

unfoldable pub get_users : Bool → Call Value
unfolding get_field join
get_users admin = get_call (join ("/admin/users?admin=" ∷ show_bool admin ∷ [])) (get_field "users")

unfoldable pub get_users_count : Call Value
unfolding get_field
get_users_count = get_call "/admin/users/count" (get_field "user_count")

unfoldable pub create_admin_user_call : String → String → String → String → Call (Unit {0})
create_admin_user_call first_name last_name username password =
    post_call "/admin/users"
      (field "username" (string username) (
        field "first_name" (string first_name) (
          field "last_name" (string last_name)
            (field "is_admin" (bool true) (field "password" (string password) end)))))
      nothing

abbrev pub is_conflict : Option ErrorResponse → Bool
is_conflict none = false
is_conflict (some r) = r.status == 409

-- Its `catch` looks for the status 409 before `handleError`.
unfoldable pub create_admin_result : Reply → Result (Unit {0})
unfolding handle_error
create_admin_result (resolved v) = ok tt
create_admin_result (axios_error response) =
    if is_conflict response then err username_already_exists else err (handle_error response)
create_admin_result thrown = err unexpected

unfoldable pub get_wallet_total_balances : Call Value
unfolding get_field
get_wallet_total_balances = get_call "/admin/total-balances" (get_field "balances")

unfoldable pub block_user : ℕ → Call (Unit {0})
unfolding join show_nat
block_user user_id = record {
  method = put;
  path = join ("/admin/users/" ∷ show_nat user_id ∷ []);
  query = [];
  body = none;
  decode = nothing;
}

unfoldable pub get_pending_settlement : Call Value
unfolding get_field
get_pending_settlement = get_call "/admin/settlement" (get_field "debt")

unfoldable pub settle_debt : String → String → Call (Unit {0})
unfolding join
settle_debt settlement_confirmation debt =
    put_call (join ("/admin/settlement/" ∷ debt ∷ []))
      (field "settlement_confirmation" (string settlement_confirmation) end) nothing

module _ {S : Type 0} (server : S → HttpRequest → S × Reply) (client : BackendClient) where
  unfoldable pub create_admin_user : String → String → String → String → S → S × Result (Unit {0})
  unfolding create_admin_user_call create_admin_result request_of
  create_admin_user first_name last_name username password s =
      let (s', reply) =
        server s
          (request_of client (create_admin_user_call first_name last_name username password)) in
      (s', create_admin_result reply)

  -- The loop of `settleDebts`, which the first failure ends.
  unfoldable pub settle_debts : List String → String → S → S × Result (Unit {0})
  unfolding perform settle_debt
  settle_debts [] settlement_confirmation s = (s, ok tt)
  settle_debts (debt ∷ debts) settlement_confirmation s =
      let (s', result) = perform server client (settle_debt settlement_confirmation debt) s in
      elim result [ ok _ ↦ settle_debts debts settlement_confirmation s' | err e ↦ (s', err e) ]
