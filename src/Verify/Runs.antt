-- ===== src/Verify/Runs.antt =====
-- Runs of the wizard of frontend/src/pages/Verify.tsx from its mount.
use text.Mathlib.TextEquality.{eq_iff}
use reference_wallet.Base.{
  ℕ, ◌-◌, ◌≤◌, ◌≡◌, ◌≢◌, ◌⊎◌, inl, inr, refl, true, ◌&&◌, Option, some, String, leb, ◌==◌, arith,
  All, Bool-cases,
}
use reference_wallet.Transfer.Machine.{Outcome, ok, backend_error, other_error}
use reference_wallet.Verify.Forms.{
  UserInfo, StepValues, identity, country, address, default_currency, merge, step_of, accepts,
  is_present,
}
use reference_wallet.Verify.{
  Wizard, mount, empty_information, next_step, prev_step, dummy_information, submit, finish_submit,
  submit_values, Event, values_submitted, document_submitted, back, dummy_chosen, submit_settled,
  run_event,
}

-- What the forms have made sure of: a country, and a street and a city.
abbrev pub HasCountry : UserInfo → Type 0
HasCountry u = (code : String) × (u.country ≡ some code) × (code ≢ "")

abbrev pub HasAddress : UserInfo → Type 0
HasAddress u = (u.address_1 ≢ "") × (u.city ≢ "")

abbrev pub IsFilled : UserInfo → Type 0
IsFilled u = HasCountry u × HasAddress u × (u.selected_fiat_currency ≢ "")

present-ne : (s : String) → is_present s ≡ true → s ≢ ""
present-ne s h e = ground (arith, h, (eq_iff s "").1 e)

-- The wizard is at one of its five steps; a country is known from the third one on, an address from the
-- fourth one on, and both in all that was submitted.
record Inv (w : Wizard) : Type 0 where
  first : 1 ≤ w.step
  last : w.step ≤ 5
  known : 3 ≤ w.step → HasCountry w.user_information
  placed : 4 ≤ w.step → HasAddress w.user_information
  sent : All IsFilled w.submitted

mount-Inv : Inv mount
unfolding mount
mount-Inv = record {
  first = omega arith;
  last = omega arith;
  known = λ h. absurd (omega (arith, h));
  placed = λ h. absurd (omega (arith, h));
  sent = tt;
}

-- An event that leaves the step, the information and the history alone.
same-Inv :
    (w v : Wizard)
    → v.step ≡ w.step
    → v.user_information ≡ w.user_information
    → v.submitted ≡ w.submitted
    → Inv w
    → Inv v
same-Inv w v s i b h = record {
  first = rw s (h.first);
  last = rw s (h.last);
  known = rw (s, i) (h.known);
  placed = rw (s, i) (h.placed);
  sent = rw b (h.sent);
}

finish_submit-Inv : (o : Outcome (Unit {0})) (w : Wizard) → Inv w → Inv (finish_submit o w)
unfolding finish_submit
finish_submit-Inv (ok u) w h = same-Inv w _ refl refl refl h
finish_submit-Inv (backend_error m) w h = same-Inv w _ refl refl refl h
finish_submit-Inv other_error w h = same-Inv w _ refl refl refl h

module _ (moment : String → Option ℕ) where
  submit_values-Inv :
      (now : ℕ) (v : StepValues) (w : Wizard)
      → w.step ≡ step_of v
      → accepts moment now v ≡ true
      → Inv w
      → Inv (submit_values v w)
  unfolding submit_values merge submit next_step accepts
  submit_values-Inv now (identity a b c d e) w s valid h = record {
    first = omega (arith, s);
    last = omega (arith, s);
    known = λ k. absurd (omega (arith, s, k));
    placed = λ k. absurd (omega (arith, s, k));
    sent = h.sent;
  }
  submit_values-Inv now (country code) w s valid h = record {
    first = omega (arith, s);
    last = omega (arith, s);
    known = λ k. (code, refl, present-ne code valid);
    placed = λ k. absurd (omega (arith, s, k));
    sent = h.sent;
  }
  submit_values-Inv now (address a b c d e) w s valid h = record {
    first = omega (arith, s);
    last = omega (arith, s);
    known = λ k. h.known (omega (arith, s));
    placed = λ k. (present-ne a (ground (arith, valid)), present-ne c (ground (arith, valid)));
    sent = h.sent;
  }
  submit_values-Inv now (default_currency code) w s valid h = record {
    first = h.first;
    last = h.last;
    known = h.known;
    placed = h.placed;
    sent =
        ((h.known (omega (arith, s)), h.placed (omega (arith, s)), present-ne code valid), h.sent);
  }

  run_event-Inv : (w : Wizard) (e : Event) → Inv w → Inv (run_event moment w e)
  unfolding run_event next_step prev_step dummy_information empty_information
  run_event-Inv w (values_submitted now v) h =
      elim (Bool-cases (w.step == step_of v && accepts moment now v)) [
        | inl on ↦ rw on (submit_values-Inv now v w (ground (arith, on)) (ground (arith, on)) h)
        | inr off ↦ rw off h
      ]
  run_event-Inv w (document_submitted file) h = elim (Bool-cases (w.step == 4)) [
    | inl on ↦ rw on (record {
      first = ground arith;
      last = ground (arith, on);
      known = λ k. h.known (ground (arith, on));
      placed = λ k. h.placed (ground (arith, on));
      sent = h.sent;
    })
    | inr off ↦ rw off h
  ]
  run_event-Inv w back h = elim (Bool-cases (leb 2 w.step && leb w.step 5)) [
    | inl on ↦ rw on (record {
      first = ground (arith, on);
      last = ground (arith, on);
      known = λ k. h.known (ground (arith, k));
      placed = λ k. h.placed (ground (arith, k));
      sent = h.sent;
    })
    | inr off ↦ rw off h
  ]
  run_event-Inv w (dummy_chosen f) h = elim (Bool-cases (leb 1 w.step && leb w.step 3)) [
    | inl on ↦ rw on (record {
      first = h.first;
      last = h.last;
      known = λ k. ("US", refl, present-ne "US" refl);
      placed = λ k. absurd (ground (arith, on, k));
      sent = h.sent;
    })
    | inr off ↦ rw off h
  ]
  run_event-Inv w (submit_settled o) h = elim (Bool-cases (w.in_flight == 0)) [
    | inl on ↦ rw on h
    | inr off ↦ rw off (
        finish_submit-Inv o (record w { in_flight = w.in_flight - 1 })
          (same-Inv w _ refl refl refl h))
  ]

  pub data Reach : Wizard → Type 0 where
    mounted : Reach mount
    next : {w : Wizard} (e : Event) → Reach w → Reach (run_event moment w e)

  Reach-Inv : {w : Wizard} → Reach w → Inv w
  Reach-Inv mounted = mount-Inv
  Reach-Inv (next {w} e r) = run_event-Inv w e (Reach-Inv r)

  -- At every point of a run the wizard is at one of its five steps, past the second one a country is
  -- known, past the third one a street and a city, and every submitted information has all these and a
  -- currency, none of them an empty text.
  pub Reach-has_country :
      {w : Wizard}
      → Reach w
      → (1 ≤ w.step)
        × (w.step ≤ 5)
        × ((w.step ≤ 2) ⊎ HasCountry w.user_information)
        × ((w.step ≤ 3) ⊎ HasAddress w.user_information)
        × All IsFilled w.submitted
  Reach-has_country {w} r =
      let h = Reach-Inv r in
      (
        h.first,
        h.last,
        elim (Bool-cases (leb w.step 2)) [
          | inl early ↦ inl (ground (arith, early))
          | inr late ↦ inr (h.known (ground (arith, late)))
        ],
        elim (Bool-cases (leb w.step 3)) [
          | inl early ↦ inl (ground (arith, early))
          | inr late ↦ inr (h.placed (ground (arith, late)))
        ],
        h.sent,
      )
