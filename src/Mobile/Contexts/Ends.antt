-- ===== src/Mobile/Contexts/Ends.antt =====
-- How the loops of the providers end.
use reference_wallet.Base.{
  ◌≡◌, ◌↔◌, refl, subst, sym, Bool, true, false, Option, String, length, ap, some, List, [], ◌∷◌,
  arith, Bool-cases, inl, inr, ◌==◌,
}
use reference_wallet.Backend.Http.{
  Exception, backend_error, username_already_exists, unexpected, Result, ok, err, get_access_token,
}
use reference_wallet.Session
use reference_wallet.Session.{is_unauthorized}
use reference_wallet.Mobile.Contexts.{
  Phase, Root, Provider, Event, token_read, settled, timer, left, step, run, settle, user_step,
  catch_user, catch_quietly,
}

module _ {S V : Type 0} (receive : V → S → S × Bool)
    (catch : Exception → Provider S → Provider S) where
  step-over : (p : Provider S) (e : Event V) → p.phase ≡ Phase.over → step receive catch p e ≡ p
  unfolding step
  step-over p token_read h = rw h refl
  step-over p (settled r) h = rw h refl
  step-over p timer h = rw h refl
  step-over p left h = rw h refl

  run-over :
      (p : Provider S) (es : List (Event V)) → p.phase ≡ Phase.over → run receive catch p es ≡ p
  unfolding run
  run-over p [] h = refl
  run-over p (e ∷ es) h = rw (step-over p e h) (run-over p es h)

-- What the handlers of an exception leave alone.
record IsLeft {S : Type 0} (p q : Provider S) : Type 0 where
  phase : q.phase ≡ p.phase
  value : q.value ≡ p.value
  requests : q.requests ≡ p.requests

catch_user-IsLeft : {S : Type 0} (e : Exception) (p : Provider S) → IsLeft p (catch_user e p)
unfolding catch_user
catch_user-IsLeft (backend_error m status) p = elim (Bool-cases (status == 401)) [
  | inl on ↦ rw on (record { phase = refl; value = refl; requests = refl })
  | inr off ↦ rw off (record { phase = refl; value = refl; requests = refl })
]
catch_user-IsLeft username_already_exists p = record { phase = refl; value = refl; requests = refl }
catch_user-IsLeft unexpected p = record { phase = refl; value = refl; requests = refl }

abbrev pub HasEnded : {S : Type 0} → Provider S → Provider S → Type 0
HasEnded p q = (q.phase ≡ Phase.over) × (q.value ≡ p.value) × (q.requests ≡ p.requests)

failure-HasEnded :
    {S V : Type 0} (receive : V → S → S × Bool) (catch : Exception → Provider S → Provider S)
    → ((e : Exception) (p : Provider S) → IsLeft p (catch e p))
    → (p : Provider S) (e : Exception) (es : List (Event V)) → p.phase ≡ Phase.fetching
    → HasEnded p (run receive catch p (settled (err e) ∷ es))
unfolding run step settle
failure-HasEnded receive catch quiet p e es fetching =
    let q = catch e (record p { phase = Phase.over }) in
    let h = quiet e (record p { phase = Phase.over }) in
    rw fetching (
      subst (HasEnded p) (sym (run-over receive catch q es h.phase)) (h.phase, h.value, h.requests))

-- A request that fails is the last one of a provider's loop, whatever the reason: nothing that follows
-- starts it again or changes its value, neither with the handler of the user's provider nor with that of
-- the other two.
pub failed_load_last :
    {S V : Type 0} (receive : V → S → S × Bool) (p : Provider S) (e : Exception)
    (es : List (Event V))
    → p.phase ≡ Phase.fetching
    → HasEnded p (run receive catch_user p (settled (err e) ∷ es))
      × HasEnded p (run receive catch_quietly p (settled (err e) ∷ es))
failed_load_last receive p e es fetching = (
  failure-HasEnded receive catch_user catch_user-IsLeft p e es fetching,
  failure-HasEnded receive catch_quietly
      (λ e p. record { phase = refl; value = refl; requests = refl }) p e es fetching,
)

longer : (r : Root) (rs : List Root) → ¬ (rs ≡ r ∷ rs)
longer r rs h = omega (arith, ap length h)

-- When a request of the user's provider ends, and the storage has a token, the provider does to the
-- storage what the refresh of the web application does, and puts the screen to sign in in the place of
-- the others just when that leaves the page for "/".
sessions_agree :
    {U : Type 0} (p : Provider (Option U)) (t : String) (r : Result U)
    → p.phase ≡ Phase.fetching
    → get_access_token p.storage ≡ some t
    → let q = user_step p (settled r) in
      let a = Session.refresh_user r (record { storage = p.storage; left = false }) in
      (q.storage ≡ a.storage) × ((q.roots ≡ Root.sign_in ∷ p.roots) ↔ (a.left ≡ true))
unfolding user_step step settle Session.refresh_user catch_user Session.catch_refresh
sessions_agree p t (ok u) fetching stored =
    rw fetching (refl, (λ h. absurd (longer Root.sign_in p.roots h), λ h. absurd (cc)))
sessions_agree p t (err (backend_error m status)) fetching stored =
    elim (Bool-cases (status == 401)) [
      | inl on ↦ rw (fetching, stored, on) (refl, (λ h. refl, λ h. refl))
      | inr off ↦ rw (fetching, stored, off) (refl, (λ h. absurd (cc), λ h. absurd (cc)))
    ]
sessions_agree p t (err username_already_exists) fetching stored =
    rw (fetching, stored) (refl, (λ h. absurd (longer Root.sign_in p.roots h), λ h. absurd (cc)))
sessions_agree p t (err unexpected) fetching stored =
    rw (fetching, stored) (refl, (λ h. absurd (longer Root.sign_in p.roots h), λ h. absurd (cc)))
