-- ===== src/Mobile/Transfer/Once.antt =====
-- How often the mobile screens of one form ask to execute a quote.
use reference_wallet.Base.{
  ℕ, zero, suc, ◌+◌, ◌≤◌, ◌≡◌, inl, inr, refl, Bool, true, false, ◌&&◌, List, [], ◌∷◌, length,
  get_elem?, leb, arith, Bool-cases, if◌then◌else◌,
}
use reference_wallet.Transfer.Machine.{Outcome, ok, backend_error, other_error}
use reference_wallet.Mobile.Review.{push, is_on_top}
use reference_wallet.Mobile.Review.Once.{
  IsSingle, IsPatient, step-IsSingle, push-IsSingle, step-length, free-length, free_of_length,
}
use reference_wallet.Mobile.Transfer.{
  Screens, Event, submit, quote_settled, reviewed, on_form_submit, finish_quote, settle_quote_at,
  step, mount,
}

-- At most one request or review is there, the button shows whether a request is awaited, and the calls are
-- counted.
pub record IsTidy {D Q : Type 0} (s : Screens D Q) : Type 0 where
  pub alone : length s.requests + length s.stack.reviews ≤ 1
  pub busy : s.loading ≡ leb 1 (length s.requests)
  pub single : IsSingle s.stack

-- The buttons of the header are pressed only on the form, or on a review that can be confirmed.
abbrev pub IsPatientEvent : {D Q : Type 0} → Screens D Q → Event D Q → Type 0
IsPatientEvent s (reviewed e) = IsPatient s.stack e
IsPatientEvent s _ = Unit

module _ {D Q : Type 0} where
  finish-IsTidy :
      (d : D) (o : Outcome Q) (s : Screens D Q)
      → s.requests ≡ []
      → length s.stack.reviews ≡ 0
      → IsSingle s.stack
      → IsTidy (finish_quote d o s)
  unfolding finish_quote push
  finish-IsTidy d (ok q) s n h k = shown s.stack.is_closed refl
    where
      shown :
          (b : Bool)
          → s.stack.is_closed ≡ b
          → IsTidy
              (record s { loading = false; stack = if b then s.stack else push (q, d) s.stack })
      shown true closed = record {
        alone = ground (arith, n, h);
        busy = ground (arith, n);
        single = k;
      }
      shown false opened = record {
        alone = ground (arith, n, h);
        busy = ground (arith, n);
        single = push-IsSingle (q, d) s.stack (free_of_length s.stack h opened) k;
      }
  finish-IsTidy d (backend_error e) s n h k = record {
    alone = ground (arith, n, h);
    busy = ground (arith, n);
    single = k;
  }
  finish-IsTidy d other_error s n h k = record {
    alone = ground (arith, n, h);
    busy = ground (arith, n);
    single = k;
  }

  settle-IsTidy :
      (rs : List D) (i : ℕ) (o : Outcome Q) (s : Screens D Q)
      → s.requests ≡ rs
      → IsTidy s
      → IsTidy (settle_quote_at (get_elem? rs i) i o s)
  unfolding settle_quote_at
  settle-IsTidy [] i o s e h = h
  settle-IsTidy (d ∷ []) zero o s e h =
      rw e
        (finish-IsTidy d o (record s { requests = [] }) refl (ground (arith, e, h.alone)) h.single)
  settle-IsTidy (d ∷ []) (suc i) o s e h = h
  settle-IsTidy (d ∷ d' ∷ rs) i o s e h = absurd (ground (arith, e, h.alone))

  module _ (accepts : D → Bool) (accepts_press : Bool → Bool)
      (ignores : accepts_press true ≡ false) where
    step-IsTidy :
        (s : Screens D Q) (e : Event D Q)
        → IsPatientEvent s e
        → IsTidy s
        → IsTidy (step accepts accepts_press s e)
    unfolding step on_form_submit
    step-IsTidy s (submit d) p h =
        elim (Bool-cases (is_on_top s.stack && (accepts_press s.loading && accepts d))) [
          | inl on ↦ rw on (submitted (no_press on))
          | inr off ↦ rw off h
        ]
      where
        no_press :
            is_on_top s.stack && (accepts_press s.loading && accepts d) ≡ true
            → (length s.requests ≡ 0) × (length s.stack.reviews ≡ 0)
        no_press on = elim (Bool-cases s.loading) [
          | inl busy ↦ absurd (ground (arith, on, busy, ignores))
          | inr idle ↦ (ground (arith, idle, h.busy), free-length s.stack (ground (arith, on)))
        ]

        submitted :
            (length s.requests ≡ 0) × (length s.stack.reviews ≡ 0) → IsTidy (on_form_submit d s)
        submitted (a, b) = record {
          alone = ground (arith, a, b);
          busy = ground (arith, a);
          single = h.single;
        }
    step-IsTidy s (quote_settled i o) p h = settle-IsTidy s.requests i o s refl h
    step-IsTidy s (reviewed e) p h = record {
      alone = omega (arith, h.alone, step-length s.stack e);
      busy = h.busy;
      single = step-IsSingle s.stack e p h.single;
    }

    -- The runs in which the buttons of the header are pressed only then.
    pub data PatientReach : Screens D Q → Type 0 where
      mounted : PatientReach mount
      next :
          {s : Screens D Q} (e : Event D Q)
          → IsPatientEvent s e
          → PatientReach s
          → PatientReach (step accepts accepts_press s e)

    PatientReach-IsTidy : {s : Screens D Q} → PatientReach s → IsTidy s
    unfolding mount
    PatientReach-IsTidy mounted = record { alone = omega arith; busy = refl; single = omega arith }
    PatientReach-IsTidy (next {s} e p c) = step-IsTidy s e p (PatientReach-IsTidy c)

    -- If a button that shows that it is loading passes no press on, and the header's buttons to go back and
    -- home are pressed only on the form or on a review that can be confirmed, then at most one call for a
    -- quote is awaited at any time, and of the calls that execute a quote all but at most one have been
    -- reported to their review as failed.
    pub transferred_once :
        {s : Screens D Q}
        → PatientReach s
        → (length s.requests ≤ 1) × (length s.stack.asked ≤ suc s.stack.failed)
    transferred_once {s} c =
        let h = PatientReach-IsTidy c in (omega (arith, h.alone), omega (arith, h.single))
