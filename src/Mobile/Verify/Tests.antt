-- ===== src/Mobile/Verify/Tests.antt =====
-- Runs of the wizard of mobile/src/screens/Verify.tsx.
use reference_wallet.Base.{ℕ, ◌≡◌, refl, true, not, Option, none, some, String, [], ◌∷◌}
use reference_wallet.Transfer.Machine.{backend_error}
use reference_wallet.Verify.Forms.{identity, default_currency, merge, accepts, mobile_accepts}
use reference_wallet.Verify
use reference_wallet.Mobile.Verify as Phone
use reference_wallet.Mobile.Verify.{Wizard, mount, values_submitted, settled}
use reference_wallet.Mobile.Verify.Same.{of_mobile, wizards_agree}
use reference_wallet.Mobile.Verify.Stuck.{run, submitted_once}

abbrev five : String → Option ℕ
five s = some 5

abbrev at_last_step : Wizard
at_last_step = record mount { step = 5 }

failed_update :
    run five not at_last_step (
      values_submitted 9 (default_currency "EUR")
      ∷ settled 0 (backend_error "no")
      ∷ values_submitted 9 (default_currency "EUR")
      ∷ [])
    ≡ record at_last_step {
      user_information = merge at_last_step.user_information (default_currency "EUR");
      error_message = some "no";
      submit_status = Verify.SubmitStatus.fail;
      loading = true;
      submitted = merge at_last_step.user_information (default_currency "EUR") ∷ [];
    }
unfolding Phone.run_event mount
failed_update = refl

submitted_once_example :
    let info = merge at_last_step.user_information (default_currency "EUR") in
    let ended = run five not at_last_step (
      values_submitted 9 (default_currency "EUR")
      ∷ settled 0 (backend_error "no")
      ∷ values_submitted 9 (default_currency "USD")
      ∷ []) in
    (ended.submitted ≡ info ∷ []) × (ended.step ≡ 5)
unfolding mount mobile_accepts
submitted_once_example =
    submitted_once five not at_last_step 9 "EUR"
      (settled 0 (backend_error "no") ∷ values_submitted 9 (default_currency "USD") ∷ []) refl refl
      refl refl refl (tt, (tt, tt))

wizards_agree_example :
    (of_mobile (
        Phone.run_event five not mount (values_submitted 9 (identity "Ada" "King" "1815" "44" "1")))
      ≡ Verify.run_event five
          (of_mobile mount)
          (Verify.values_submitted 9 (identity "Ada" "King" "1815" "44" "1")))
    × (of_mobile (Phone.run_event five not mount Phone.document_submitted)
        ≡ Verify.run_event five (of_mobile mount) (Verify.document_submitted none))
    × (of_mobile (Phone.run_event five not mount Phone.back)
        ≡ Verify.run_event five (of_mobile mount) Verify.back)
unfolding mount accepts
wizards_agree_example =
    wizards_agree five not mount 9 (identity "Ada" "King" "1815" "44" "1") refl refl refl
