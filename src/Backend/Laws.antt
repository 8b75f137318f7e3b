-- ===== src/Backend/Laws.antt =====
-- How the methods of frontend/src/services/backendClient.ts end, and what they ask for.
use text.Mathlib.TextEquality.{eq_iff}
use text.Mathlib.TextLemmas.{append-eq-nil_iff}
use mathlib.Core.List.{append_assoc, append-nil}
use reference_wallet.Base.{
  ℕ, ◌<◌, ◌/◌, ◌≡◌, ◌≢◌, ◌↔◌, ◌⊎◌, refl, sym, ap, ◌∙◌, false, Option, none, some, List, [], ◌∷◌,
  ◌++◌, map, String, ◌==◌, arith, Bool-cases, inl, inr, ==_iff,
}
use reference_wallet.Amount.{whole}
use reference_wallet.Amount.Text.{Fraction}
use reference_wallet.Payment.Params.{PaymentDetails, from_payment_details}
use reference_wallet.Backend.Http.{
  Value, Fields, undefined, string, number, find_field, join, HttpRequest, Reply, resolved,
  axios_error, thrown, ErrorResponse, Exception, backend_error, username_already_exists, Result, ok,
  err, handle_error, result_of, request_of, BackendClient, or_text, error_of, status_text,
  or_number, code_of, status_of, decoded, nothing,
}
use reference_wallet.Backend.Account.{request_deposit_quote, request_withdraw_quote}
use reference_wallet.Backend.Admin.{create_admin_result, settle_debt, settle_debts}
use reference_wallet.Backend.Offchain.{add_payment}

message-ne-empty : (e : Option String) (t : String) → t ≢ "" → or_text e t ≢ ""
message-ne-empty none t h = h
message-ne-empty (some s) t h = ground (arith, eq_iff s "")

not_empty : ◌≢◌ {A = String} "Unexpected error occurred (" ""
not_empty = ground (arith, eq_iff "Unexpected error occurred (" "")

err-injective : {A : Type 0} {x y : Exception} → Path (Result A) (err x) (err y) → x ≡ y
err-injective h = cc

abbrev pub body_field : String → Option Fields → Value
body_field k none = undefined
body_field k (some fs) = find_field k fs

-- Every failure that the backend reports becomes a `BackendError`, whose message is never empty; its
-- status is the body's code if there is one that is not 0, and the response's status otherwise.
handle_error_lem :
    (response : Option ErrorResponse)
    → (message : String) × (handle_error response
        ≡ backend_error message (or_number (code_of response) (status_of response)))
      × (message ≢ "")
unfolding handle_error
handle_error_lem response = (
  or_text (error_of response)
      (join ("Unexpected error occurred (" ∷ status_text response ∷ ")" ∷ [])),
  refl,
  message-ne-empty (error_of response)
      (join ("Unexpected error occurred (" ∷ status_text response ∷ ")" ∷ []))
      (λ e. not_empty ((append-eq-nil_iff {p = "Unexpected error occurred ("}).0 e).0),
)

error_of_decoded :
    {A : Type 0} (o : Option A) (message : String) (status : ℕ)
    → decoded o ≢ err (backend_error message status)
error_of_decoded none message status h = cc
error_of_decoded (some a) message status h = cc

-- A method with the common `catch` ends in a `BackendError` exactly when the reply is an
-- `AxiosError`, and then in the one that `handleError` makes of it.
result_of-backend_error_iff :
    {A : Type 0} (decode : Value → Option A) (reply : Reply) (message : String) (status : ℕ)
    → (result_of decode reply ≡ err (backend_error message status)) ↔ (
        (response : Option ErrorResponse) × (reply ≡ axios_error response)
        × (handle_error response ≡ backend_error message status))
unfolding result_of
result_of-backend_error_iff decode (resolved v) message status =
    (λ h. absurd (error_of_decoded (decode v) message status h), λ (r, e, h). absurd (cc e))
result_of-backend_error_iff {A} decode (axios_error response) message status =
    (λ h. (response, refl, err-injective h), λ (r, e, h). same r (response-injective e) h)
  where
    response-injective :
        {r : Option ErrorResponse} → axios_error response ≡ axios_error r → response ≡ r
    response-injective e = cc

    same :
        (r : Option ErrorResponse)
        → response ≡ r
        → handle_error r ≡ backend_error message status
        → Path (Result A) (err (handle_error response)) (err (backend_error message status))
    same r e h = ap err (ap handle_error e ∙ h)
result_of-backend_error_iff decode thrown message status =
    (λ h. absurd (cc h), λ (r, e, h). absurd (cc e))

-- `createAdminUser` reports a taken name exactly on an `AxiosError` with the status 409, and on any
-- other reply it ends as the common `catch` does.
create_admin_result_iff :
    (reply : Reply)
    → ((create_admin_result reply ≡ err username_already_exists)
        ↔ ((r : ErrorResponse) × (reply ≡ axios_error (some r)) × (r.status ≡ 409)))
      × ((create_admin_result reply ≡ err username_already_exists)
          ⊎ (create_admin_result reply ≡ result_of nothing reply))
unfolding create_admin_result result_of
create_admin_result_iff (resolved v) = ((λ h. absurd (cc h), λ (r, e, h). absurd (cc e)), inr refl)
create_admin_result_iff thrown = ((λ h. absurd (cc h), λ (r, e, h). absurd (cc e)), inr refl)
create_admin_result_iff (axios_error none) =
    ((λ h. absurd (cc h), λ (r, e, h). absurd (cc e)), inr refl)
create_admin_result_iff (axios_error (some r)) = elim (Bool-cases (r.status == 409)) [
  | inl taken ↦ rw taken ((λ h. (r, refl, (==_iff _ _).0 taken), λ h. refl), inl refl)
  | inr other ↦ rw other (
    (λ h. absurd (cc h), λ (r', e, h). absurd (not_taken other r' (response-injective e) h)),
    inr refl,
  )
]
  where
    response-injective : {x y : ErrorResponse} → axios_error (some x) ≡ axios_error (some y) → x ≡ y
    response-injective e = cc

    not_taken : (r.status == 409) ≡ false → (x : ErrorResponse) → r ≡ x → x.status ≡ 409 → ⊥
    not_taken other x e h = ground (arith, ap (λ (y : ErrorResponse). y.status) e)

Result-cases : (r : Result (Unit {0})) → (r ≡ ok tt) ⊎ ((e : Exception) × (r ≡ err e))
Result-cases (ok _) = inl refl
Result-cases (err e) = inr (e, refl)

module _ {S : Type 0} (server : S → HttpRequest → S × Reply) where
  -- The server, with the requests that it has been sent, the first one first.
  abbrev pub logged : List HttpRequest × S → HttpRequest → (List HttpRequest × S) × Reply
  logged (log, s) request = let (s', reply) = server s request in ((log ++ request ∷ [], s'), reply)

  module _ (client : BackendClient) (confirmation : String) where
    abbrev pub settlement : String → HttpRequest
    settlement debt = request_of client (settle_debt confirmation debt)

    -- How the request for a debt ends at a server, and its state afterwards.
    abbrev pub result_at : String → S → Result (Unit {0})
    result_at debt s = result_of nothing (server s (settlement debt)).1

    abbrev pub state_after : List String → S → S
    state_after [] s = s
    state_after (debt ∷ debts) s = state_after debts (server s (settlement debt)).0

    -- All debts of a list are settled, one after the other.
    abbrev pub AllSettled : List String → S → Type 0
    AllSettled [] s = Unit
    AllSettled (debt ∷ debts) s =
        (result_at debt s ≡ ok tt) × AllSettled debts (server s (settlement debt)).0

    -- A settlement that stops at a debt, which is refused after those before it were settled.
    pub record StopsAt (debts settled : List String) (log : List HttpRequest) (s : S)
        (after : (List HttpRequest × S) × Result (Unit {0})) : Type 0 where
      pub refused : String
      pub unsent : List String
      pub reason : Exception
      pub split : debts ≡ settled ++ refused ∷ unsent
      pub refusal : result_at refused (state_after settled s) ≡ err reason
      pub sent : after.0.0 ≡ log ++ map settlement (settled ++ refused ∷ [])
      pub failed : after.1 ≡ err reason

    -- A settlement that reaches the end.
    pub record Completes (debts settled : List String) (log : List HttpRequest)
        (after : (List HttpRequest × S) × Result (Unit {0})) : Type 0 where
      pub all : debts ≡ settled
      pub sent : after.0.0 ≡ log ++ map settlement settled
      pub succeeded : after.1 ≡ ok tt

    pub record Settled (debts : List String) (log : List HttpRequest) (s : S)
        (after : (List HttpRequest × S) × Result (Unit {0})) : Type 0 where
      pub settled : List String
      pub settled_ok : AllSettled settled s
      pub ending : Completes debts settled log after ⊎ StopsAt debts settled log s after

    Settled-more :
        (debt : String) (debts : List String) (log : List HttpRequest) (s : S)
        {after : (List HttpRequest × S) × Result (Unit {0})}
        → result_at debt s ≡ ok tt
        → Settled debts (log ++ settlement debt ∷ []) (server s (settlement debt)).0 after
        → Settled (debt ∷ debts) log s after
    Settled-more debt debts log s {after} done h = record {
      settled = debt ∷ h.settled;
      settled_ok = (done, h.settled_ok);
      ending = ending h.ending;
    }
      where
        more : List String → List String
        more ds = debt ∷ ds

        ending :
            Completes debts h.settled (log ++ settlement debt ∷ []) after
              ⊎ StopsAt debts h.settled
                  (log ++ settlement debt ∷ [])
                  (server s (settlement debt)).0
                  after
            → Completes (debt ∷ debts) (debt ∷ h.settled) log after
              ⊎ StopsAt (debt ∷ debts) (debt ∷ h.settled) log s after
        ending (inl c) = inl (record {
          all = ap more c.all;
          sent = c.sent ∙ append_assoc log (settlement debt ∷ []) (map settlement h.settled);
          succeeded = c.succeeded;
        })
        ending (inr c) = inr (record {
          refused = c.refused;
          unsent = c.unsent;
          reason = c.reason;
          split = ap more c.split;
          refusal = c.refusal;
          sent =
              c.sent
              ∙ append_assoc log (settlement debt ∷ [])
                  (map settlement (h.settled ++ c.refused ∷ []));
          failed = c.failed;
        })

    -- `settleDebts` sends one request for each debt, in order, until the first that is refused: either all
    -- debts are settled, a request was sent for each, and it succeeds, or those before some debt are
    -- settled, the request for that debt is refused, no request is sent for the debts after it, and it
    -- fails with the reason of the refusal.
    pub settle_debts-Settled :
        (debts : List String) (log : List HttpRequest) (s : S)
        → Settled debts log s (settle_debts logged client debts confirmation (log, s))
    unfolding settle_debts
    settle_debts-Settled [] log s = record {
      settled = [];
      settled_ok = tt;
      ending = inl (record { all = refl; sent = sym (append-nil log); succeeded = refl });
    }
    settle_debts-Settled (debt ∷ debts) log s = elim (Result-cases (result_at debt s)) [
      | inl done ↦ Settled-more debt debts log s done (
          rw (done, settle_debts)
            (settle_debts-Settled debts (log ++ settlement debt ∷ [])
              (server s (settlement debt)).0))
      | inr (e, failed) ↦
          rw (failed, settle_debts)
            (record {
              settled = [];
              settled_ok = tt;
              ending = inr (record {
                refused = debt;
                unsent = debts;
                reason = e;
                split = refl;
                refusal = failed;
                sent = refl;
                failed = refl;
              });
            })
    ]

-- A deposit and a withdrawal between the same currencies ask for the same currency pair and amount,
-- in opposite directions.
quotes_mirror :
    (fiat_currency currency : String) (amount : Fraction)
    → let deposit = (request_deposit_quote fiat_currency currency amount).body in
      let withdrawal = (request_withdraw_quote currency fiat_currency amount).body in
      (body_field "currency_pair" deposit ≡ body_field "currency_pair" withdrawal)
      × (body_field "amount" deposit ≡ body_field "amount" withdrawal)
      × (body_field "action" deposit ≡ string "buy")
      × (body_field "action" withdrawal ≡ string "sell")
unfolding request_deposit_quote request_withdraw_quote find_field
quotes_mirror fiat_currency currency amount = (refl, refl, refl, refl)

number-injective : {x y : ℕ} → number (whole x) ≡ number (whole y) → x ≡ y
number-injective e = cc

thousandth_ne : (n : ℕ) → 0 < n → n / 1000 ≢ n
thousandth_ne n h = omega arith

-- The backend's payment details hold an expiration in seconds. Unless it is 0, the payment that is
-- made of them and sent back holds a thousandth of it, which is another time.
expiration-lost :
    (details : PaymentDetails) (redirect_url : Option String)
    → 0 < details.expiration
    → let sent =
        body_field "expiration" (add_payment (from_payment_details details redirect_url)).body in
      (sent ≡ number (whole (details.expiration / 1000)))
      × (sent ≢ number (whole details.expiration))
unfolding add_payment from_payment_details find_field
expiration-lost details redirect_url h =
    (refl, λ e. thousandth_ne details.expiration h (number-injective e))
