-- ===== src/Send/Modal/Runs.antt =====
-- Runs of the dialog of frontend/src/components/Send/SendModal.tsx from its mount.
use reference_wallet.Base.{
  ℕ, ◌≡◌, inl, inr, refl, true, not, ◌&&◌, Option, none, some, List, arith, All, get_elem?,
  Bool-cases,
}
use reference_wallet.Transfer.Machine.{Outcome, ok, backend_error, other_error}
use reference_wallet.Send.Form.{SendData, CurrencyBalance, accepts}
use reference_wallet.Send.Modal.{
  Pending, World, Event, transaction_of, send_transaction, created, refreshed, settle_create,
  settle_refresh, shows_decision, step, mount, empty_dialog,
}

-- The review stands on data that the form's rules accept, and so did every transaction asked for.
pub record IsChecked (balances : List CurrencyBalance) (w : World) : Type 0 where
  pub review : w.dialog.reviewing ≡ true → accepts balances w.dialog.data_sent ≡ true
  pub asked :
      All (λ x. (d : SendData) × (transaction_of d ≡ x) × (accepts balances d ≡ true)) w.asked

module _ (balances : List CurrencyBalance) (initial_currency : Option (List ℕ))
    (fiat_code : List ℕ) where
  pub data Reach : World → Type 0 where
    mounted : Reach (mount balances initial_currency fiat_code)
    next : {w : World} (e : Event) → Reach w → Reach (step balances initial_currency fiat_code w e)

  settle_create-IsChecked :
      (w : World) (c : Option Pending) (i : ℕ) (o : Outcome ℕ)
      → IsChecked balances w
      → IsChecked balances (settle_create c i o w)
  unfolding settle_create created
  settle_create-IsChecked w none i o h = h
  settle_create-IsChecked w (some Pending.refreshing) i o h = h
  settle_create-IsChecked w (some Pending.opening) i o h = h
  settle_create-IsChecked w (some Pending.creating) i (ok id) h = record {
    review = h.review;
    asked = h.asked;
  }
  settle_create-IsChecked w (some Pending.creating) i (backend_error m) h = record {
    review = h.review;
    asked = h.asked;
  }
  settle_create-IsChecked w (some Pending.creating) i other_error h = record {
    review = h.review;
    asked = h.asked;
  }

  settle_refresh-IsChecked :
      (w : World) (c : Option Pending) (i : ℕ) (o : Outcome (Unit {0}))
      → IsChecked balances w
      → IsChecked balances (settle_refresh c i o w)
  unfolding settle_refresh refreshed
  settle_refresh-IsChecked w none i o h = h
  settle_refresh-IsChecked w (some Pending.creating) i o h = h
  settle_refresh-IsChecked w (some Pending.opening) i o h = record {
    review = h.review;
    asked = h.asked;
  }
  settle_refresh-IsChecked w (some Pending.refreshing) i (ok u) h = record {
    review = h.review;
    asked = h.asked;
  }
  settle_refresh-IsChecked w (some Pending.refreshing) i (backend_error m) h = record {
    review = h.review;
    asked = h.asked;
  }
  settle_refresh-IsChecked w (some Pending.refreshing) i other_error h = record {
    review = h.review;
    asked = h.asked;
  }

  step-IsChecked :
      (w : World) (e : Event)
      → IsChecked balances w
      → IsChecked balances (step balances initial_currency fiat_code w e)
  unfolding step send_transaction empty_dialog
  step-IsChecked w (Event.submit d) h =
      elim (Bool-cases (not w.dialog.reviewing && accepts balances d)) [
        | inl on ↦ rw on (record { review = λ _. ground arith; asked = h.asked })
        | inr off ↦ rw off h
      ]
  step-IsChecked w Event.back h = elim (Bool-cases (shows_decision w.dialog)) [
    | inl on ↦ rw on (record { review = λ e. absurd (ground arith); asked = h.asked })
    | inr off ↦ rw off h
  ]
  step-IsChecked w Event.confirm h = elim (Bool-cases (shows_decision w.dialog)) [
    | inl on ↦ rw on (record {
      review = h.review;
      asked = ((w.dialog.data_sent, refl, h.review (ground arith)), h.asked);
    })
    | inr off ↦ rw off h
  ]
  step-IsChecked w Event.close h = record { review = λ e. absurd (ground arith); asked = h.asked }
  step-IsChecked w (Event.create_settled i o) h =
      settle_create-IsChecked w (get_elem? w.in_flight i) i o h
  step-IsChecked w (Event.refresh_settled i o) h =
      settle_refresh-IsChecked w (get_elem? w.in_flight i) i o h

  pub Reach-IsChecked : {w : World} → Reach w → IsChecked balances w
  unfolding mount empty_dialog
  Reach-IsChecked mounted = record { review = λ e. absurd (ground arith); asked = tt }
  Reach-IsChecked (next {w} e r) = step-IsChecked w e (Reach-IsChecked r)
