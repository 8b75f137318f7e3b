-- ===== src/Send/Modal/Flight.antt =====
-- The promises in flight of frontend/src/components/Send/SendModal.tsx, and what a failed refresh
-- does after a transaction was created.
use reference_wallet.Base.{
  ℕ, zero, suc, ◌≤◌, ◌≡◌, ◌≢◌, ◌↔◌, inl, inr, refl, Bool, true, false, not, ◌&&◌, Option, some,
  List, [], ◌∷◌, arith, length, get_elem?, Bool-cases, ap,
}
use reference_wallet.Transfer.Machine.{Outcome, ok, backend_error, other_error}
use reference_wallet.Send.Form.{CurrencyBalance, accepts}
use reference_wallet.Send.Modal.{
  Status, Pending, World, Event, transaction_of, send_transaction, created, refreshed,
  settle_create, settle_refresh, shows_decision, step, mount, empty_dialog,
}

abbrev pub is_close : Event → Bool
is_close Event.close = true
is_close _ = false

-- The promise of the refresh at the mount, if it is still awaited.
abbrev opening_if : Bool → List Pending
opening_if true = Pending.opening ∷ []
opening_if false = []

-- The promises of `sendTransaction`.
abbrev pub own : List Pending → List Pending
own [] = []
own (Pending.opening ∷ ps) = own ps
own (Pending.creating ∷ ps) = Pending.creating ∷ own ps
own (Pending.refreshing ∷ ps) = Pending.refreshing ∷ own ps

-- The status and the promises of a dialog in one of the cases that fit.
data Fitting (w : World) : Type 0 where
  idle :
      (b : Bool) → w.dialog.submit_status ≢ Status.sending → w.in_flight ≡ opening_if b → Fitting w
  sends :
      (b : Bool)
      → w.dialog.submit_status ≡ Status.sending
      → w.in_flight ≡ Pending.creating ∷ opening_if b
      → Fitting w
  refreshes :
      (b : Bool)
      → w.dialog.submit_status ≡ Status.success
      → w.in_flight ≡ Pending.refreshing ∷ opening_if b
      → Fitting w

settle_create-Fitting :
    (w : World) (i : ℕ) (o : Outcome ℕ)
    → Fitting w
    → Fitting (settle_create (get_elem? w.in_flight i) i o w)
unfolding settle_create created
settle_create-Fitting w i o (idle false s e) = rw e (idle false s refl)
settle_create-Fitting w zero o (idle true s e) = rw e (idle true s refl)
settle_create-Fitting w (suc i) o (idle true s e) = rw e (idle true s refl)
settle_create-Fitting w zero o (refreshes b s e) = rw e (refreshes b s refl)
settle_create-Fitting w (suc i) o (refreshes false s e) = rw e (refreshes false s refl)
settle_create-Fitting w (suc zero) o (refreshes true s e) = rw e (refreshes true s refl)
settle_create-Fitting w (suc (suc i)) o (refreshes true s e) = rw e (refreshes true s refl)
settle_create-Fitting w (suc i) o (sends false s e) = rw e (sends false s refl)
settle_create-Fitting w (suc zero) o (sends true s e) = rw e (sends true s refl)
settle_create-Fitting w (suc (suc i)) o (sends true s e) = rw e (sends true s refl)
settle_create-Fitting w zero (ok id) (sends b s e) = rw e (refreshes b refl refl)
settle_create-Fitting w zero (backend_error m) (sends b s e) = rw e (idle b (λ p. cc) refl)
settle_create-Fitting w zero other_error (sends b s e) = rw e (idle b (λ p. cc) refl)

settle_refresh-Fitting :
    (w : World) (i : ℕ) (o : Outcome (Unit {0}))
    → Fitting w
    → Fitting (settle_refresh (get_elem? w.in_flight i) i o w)
unfolding settle_refresh refreshed
settle_refresh-Fitting w i o (idle false s e) = rw e (idle false s refl)
settle_refresh-Fitting w zero o (idle true s e) = rw e (idle false s refl)
settle_refresh-Fitting w (suc i) o (idle true s e) = rw e (idle true s refl)
settle_refresh-Fitting w zero o (sends b s e) = rw e (sends b s refl)
settle_refresh-Fitting w (suc i) o (sends false s e) = rw e (sends false s refl)
settle_refresh-Fitting w (suc zero) o (sends true s e) = rw e (sends false s refl)
settle_refresh-Fitting w (suc (suc i)) o (sends true s e) = rw e (sends true s refl)
settle_refresh-Fitting w (suc i) o (refreshes false s e) = rw e (refreshes false s refl)
settle_refresh-Fitting w (suc zero) o (refreshes true s e) = rw e (refreshes false s refl)
settle_refresh-Fitting w (suc (suc i)) o (refreshes true s e) = rw e (refreshes true s refl)
settle_refresh-Fitting w zero (ok u) (refreshes b s e) = rw e (idle b (ground (arith, s)) refl)
settle_refresh-Fitting w zero (backend_error m) (refreshes b s e) = rw e (idle b (λ p. cc) refl)
settle_refresh-Fitting w zero other_error (refreshes b s e) = rw e (idle b (λ p. cc) refl)

decides-idle :
    (w : World)
    → shows_decision w.dialog ≡ true
    → Fitting w
    → (b : Bool) × (w.in_flight ≡ opening_if b)
decides-idle w h (idle b s e) = (b, e)
decides-idle w h (sends b s e) = absurd (ground (arith, s))
decides-idle w h (refreshes b s e) = absurd (ground (arith, s))

module _ (balances : List CurrencyBalance) (initial_currency : Option (List ℕ))
    (fiat_code : List ℕ) where
  -- The runs in which the dialog is not closed.
  pub data Open : World → Type 0 where
    mounted : Open (mount balances initial_currency fiat_code)
    next :
        {w : World} (e : Event)
        → is_close e ≡ false
        → Open w
        → Open (step balances initial_currency fiat_code w e)

  keep-Fitting :
      (w v : World)
      → v.dialog.submit_status ≡ w.dialog.submit_status
      → v.in_flight ≡ w.in_flight
      → Fitting w
      → Fitting v
  keep-Fitting w v s e (idle b s' e') = idle b (λ p. s' (cc)) (cc)
  keep-Fitting w v s e (sends b s' e') = sends b (cc) (cc)
  keep-Fitting w v s e (refreshes b s' e') = refreshes b (cc) (cc)

  step-Fitting :
      (w : World) (e : Event)
      → is_close e ≡ false
      → Fitting w
      → Fitting (step balances initial_currency fiat_code w e)
  unfolding step send_transaction
  step-Fitting w (Event.submit d) k f =
      elim (Bool-cases (not w.dialog.reviewing && accepts balances d)) [
        | inl on ↦ rw on (keep-Fitting w _ refl refl f)
        | inr off ↦ rw off f
      ]
  step-Fitting w Event.back k f = elim (Bool-cases (shows_decision w.dialog)) [
    | inl on ↦ rw on (keep-Fitting w _ refl refl f)
    | inr off ↦ rw off f
  ]
  step-Fitting w Event.confirm k f = elim (Bool-cases (shows_decision w.dialog)) [
    | inl on ↦
        let (b, e) = decides-idle w on f in
        rw on (sends b refl (ap (λ ps. Pending.creating ∷ ps) e))
    | inr off ↦ rw off f
  ]
  step-Fitting w Event.close k f = absurd (ground arith)
  step-Fitting w (Event.create_settled i o) k f = settle_create-Fitting w i o f
  step-Fitting w (Event.refresh_settled i o) k f = settle_refresh-Fitting w i o f

  Open-Fitting : {w : World} → Open w → Fitting w
  unfolding mount empty_dialog
  Open-Fitting mounted = idle true (λ p. cc) refl
  Open-Fitting (next {w} e k r) = step-Fitting w e k (Open-Fitting r)

  own-opening : (b : Bool) → own (opening_if b) ≡ []
  own-opening true = refl
  own-opening false = refl

  -- As long as the dialog is not closed, at most one promise of `sendTransaction` is in flight,
  -- whether or not that of the refresh at the mount still is, and the dialog says that it is sending
  -- exactly when one is and it is the one of `createTransaction`.
  pub single_flight :
      {w : World}
      → Open w
      → (length (own w.in_flight) ≤ 1)
        × ((w.dialog.submit_status ≡ Status.sending) ↔ (own w.in_flight ≡ Pending.creating ∷ []))
  single_flight {w} r = fitting (Open-Fitting r)
    where
      fitting :
          Fitting w
          → (length (own w.in_flight) ≤ 1)
            × ((w.dialog.submit_status ≡ Status.sending)
                ↔ (own w.in_flight ≡ Pending.creating ∷ []))
      fitting (idle b s e) =
          rw (e, own-opening b) (omega arith, (λ p. absurd (s p), λ p. absurd (cc)))
      fitting (sends b s e) = rw (e, s, own-opening b) (omega arith, (λ p. refl, λ p. refl))
      fitting (refreshes b s e) =
          rw (e, s, own-opening b) (omega arith, (λ p. absurd (cc), λ p. absurd (cc)))

  -- When the transaction is created but the refresh of the user fails afterwards, in whatever way, the
  -- dialog says that sending failed although it holds the transaction's number, and the button to confirm
  -- asks the backend for the same transaction once more.
  pub failed_refresh_resends :
      (w : World) (ps : List Pending) (id : ℕ) (o : Outcome (Unit {0}))
      → w.dialog.reviewing ≡ true
      → w.in_flight ≡ Pending.creating ∷ ps
      → o ≢ ok tt
      → let s = step balances initial_currency fiat_code in
        let failed = s (s w (Event.create_settled 0 (ok id))) (Event.refresh_settled 0 o) in
        (failed.dialog.submit_status ≡ Status.fail)
        × (failed.dialog.sent_transaction_id ≡ some id)
        × ((s failed Event.confirm).asked ≡ transaction_of w.dialog.data_sent ∷ w.asked)
  unfolding step settle_create settle_refresh created refreshed send_transaction
  failed_refresh_resends w ps id (ok u) h e bad = absurd (bad refl)
  failed_refresh_resends w ps id (backend_error m) h e bad = rw (e, h) (refl, refl, refl)
  failed_refresh_resends w ps id other_error h e bad = rw (e, h) (refl, refl, refl)
