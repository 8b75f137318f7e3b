-- ===== src/Mobile/Verify/Same.antt =====
-- The mobile wizard and the web wizard, mobile/src/screens/Verify.tsx and frontend/src/pages/Verify.tsx.
use reference_wallet.Base.{
  ℕ, ◌≡◌, refl, Bool, true, false, ◌&&◌, Option, none, String, arith, inl, inr, Bool-cases, length,
  leb, ◌==◌, if◌then◌else◌,
}
use reference_wallet.Verify.Forms.{
  StepValues, identity, country, address, default_currency, step_of, accepts, mobile_accepts,
}
use reference_wallet.Verify
use reference_wallet.Mobile.Verify as Phone
use reference_wallet.Mobile.Verify.{Pending}

-- What the two wizards share.
abbrev pub of_mobile : Phone.Wizard → Verify.Wizard
of_mobile w = record {
  step = w.step;
  user_information = w.user_information;
  document_file = none;
  error_message = w.error_message;
  submit_status = w.submit_status;
  in_flight = length w.pending;
  submitted = w.submitted;
}

module _ (moment : String → Option ℕ) where
  accepts-mobile :
      (now : ℕ) (v : StepValues) → accepts moment now v ≡ true → mobile_accepts moment now v ≡ true
  unfolding mobile_accepts
  accepts-mobile now (identity a b c d e) h = ground (arith, h)
  accepts-mobile now (country code) h = h
  accepts-mobile now (address a b c d e) h = h
  accepts-mobile now (default_currency code) h = h

  submit_values-agree :
      (v : StepValues) (w : Phone.Wizard)
      → of_mobile (Phone.submit_values v w) ≡ Verify.submit_values v (of_mobile w)
  unfolding Phone.submit_values Verify.submit_values
  submit_values-agree (identity a b c d e) w = refl
  submit_values-agree (country code) w = refl
  submit_values-agree (address a b c d e) w = refl
  submit_values-agree (default_currency code) w = ground arith

  module _ (accepts_press : Bool → Bool) (w : Phone.Wizard) (shown : w.is_closed ≡ false) where
    on_screen : (v : Phone.Wizard) → (if w.is_closed then w else v) ≡ v
    on_screen v = ground (arith, shown)

    taken :
        (now : ℕ) (v : StepValues)
        → accepts_press w.loading ≡ true
        → accepts moment now v ≡ true
        → (w.step == step_of v) ≡ true
        → Phone.run_event moment accepts_press w (Phone.values_submitted now v)
          ≡ Phone.submit_values v w
    unfolding Phone.run_event Phone.press
    taken now v passes valid on = ground (arith, shown, passes, on, accepts-mobile now v valid)

    dropped :
        (now : ℕ) (v : StepValues)
        → (w.step == step_of v) ≡ false
        → Phone.run_event moment accepts_press w (Phone.values_submitted now v) ≡ w
    unfolding Phone.run_event Phone.press
    dropped now v off = ground (arith, off)

    values_agree :
        (now : ℕ) (v : StepValues)
        → accepts_press w.loading ≡ true
        → accepts moment now v ≡ true
        → of_mobile (Phone.run_event moment accepts_press w (Phone.values_submitted now v))
          ≡ Verify.run_event moment (of_mobile w) (Verify.values_submitted now v)
    unfolding Verify.run_event
    values_agree now v passes valid = elim (Bool-cases (w.step == step_of v)) [
      | inl on ↦ rw (taken now v passes valid on, on, valid) (submit_values-agree v w)
      | inr off ↦ rw (dropped now v off, off) refl
    ]

    forward :
        (b : Bool)
        → of_mobile (if b then Phone.next_step w else w)
          ≡ (if b then Verify.next_step (of_mobile w) else of_mobile w)
    unfolding Phone.next_step Verify.next_step
    forward true = refl
    forward false = refl

    backward :
        (b : Bool)
        → of_mobile (if b then Phone.prev_step w else w)
          ≡ (if b then Verify.prev_step (of_mobile w) else of_mobile w)
    unfolding Phone.prev_step Verify.prev_step
    backward true = refl
    backward false = refl

    document_agrees :
        of_mobile (Phone.run_event moment accepts_press w Phone.document_submitted)
        ≡ Verify.run_event moment (of_mobile w) (Verify.document_submitted none)
    unfolding Phone.run_event Phone.press Verify.run_event
    document_agrees =
        rw (on_screen (if w.step == 4 then Phone.next_step w else w)) (forward (w.step == 4))

    back_agrees :
        of_mobile (Phone.run_event moment accepts_press w Phone.back)
        ≡ Verify.run_event moment (of_mobile w) Verify.back
    unfolding Phone.run_event Phone.press Verify.run_event
    back_agrees =
        rw (on_screen (if leb 2 w.step && leb w.step 5 then Phone.prev_step w else w))
          (backward (leb 2 w.step && leb w.step 5))

  -- While the mobile wizard is on the screen and no button of it loads, it does what the web wizard does:
  -- with values that the web form accepts, with a document that is skipped, and when one goes back.
  pub wizards_agree :
      (accepts_press : Bool → Bool) (w : Phone.Wizard) (now : ℕ) (v : StepValues)
      → w.is_closed ≡ false
      → accepts_press w.loading ≡ true
      → accepts moment now v ≡ true
      → (of_mobile (Phone.run_event moment accepts_press w (Phone.values_submitted now v))
          ≡ Verify.run_event moment (of_mobile w) (Verify.values_submitted now v))
        × (of_mobile (Phone.run_event moment accepts_press w Phone.document_submitted)
            ≡ Verify.run_event moment (of_mobile w) (Verify.document_submitted none))
        × (of_mobile (Phone.run_event moment accepts_press w Phone.back)
            ≡ Verify.run_event moment (of_mobile w) Verify.back)
  wizards_agree accepts_press w now v shown passes valid = (
    values_agree accepts_press w shown now v passes valid,
    document_agrees accepts_press w shown,
    back_agrees accepts_press w shown,
  )
