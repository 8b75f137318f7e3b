-- ===== src/Verify/Tests.antt =====
-- A run of the wizard of frontend/src/pages/Verify.tsx, and its forms.
use reference_wallet.Base.{
  ℕ, ◌≤◌, ◌≡◌, ◌⊎◌, refl, Option, none, some, String, All, length, codes, true, false, arith,
}
use reference_wallet.Verify.Forms.{
  identity, country, address, default_currency, merge, accepts, mobile_accepts, show_identity,
}
use reference_wallet.Verify.{
  Wizard, mount, empty_information, values_submitted, document_submitted, run_event,
}
use reference_wallet.Verify.Phone.{identity_round_trip}
use reference_wallet.Verify.Runs.{Reach, HasCountry, HasAddress, IsFilled, Reach-has_country}

-- All dates are valid, and lie at the time 5.
abbrev five : String → Option ℕ
five s = some 5

abbrev named : Wizard
named = run_event five mount (values_submitted 9 (identity "Ada" "King" "1815-12-10" "44" "1"))

abbrev placed : Wizard
placed = run_event five named (values_submitted 9 (country "GB"))

abbrev addressed : Wizard
addressed = run_event five placed (values_submitted 9 (address "1 Street" "" "London" "" "W1"))

abbrev shown : Wizard
shown = run_event five addressed (document_submitted none)

abbrev finished : Wizard
finished = run_event five shown (values_submitted 9 (default_currency "EUR"))

submitted_test : length finished.submitted ≡ 1
unfolding run_event mount
submitted_test = refl

-- A birthday in the future, a name of one letter, and a number with a space are refused.
refused_birthday : accepts five 4 (identity "Ada" "King" "1815-12-10" "44" "1") ≡ false
unfolding accepts
refused_birthday = refl

refused_name : accepts five 9 (identity "A" "King" "1815-12-10" "44" "1") ≡ false
unfolding accepts
refused_name = refl

refused_space : accepts five 9 (identity "Ada" "King" "1815-12-10" "44" "1 2") ≡ false
unfolding accepts
refused_space = refl

accepted_letter : accepts five 9 (identity "Ada" "King" "1815-12-10" "44" "1s2") ≡ true
unfolding accepts
accepted_letter = refl

finished-Reach : Reach five finished
finished-Reach = Reach.next (values_submitted 9 (default_currency "EUR")) (
    Reach.next (document_submitted none) (
      Reach.next (values_submitted 9 (address "1 Street" "" "London" "" "W1")) (
        Reach.next (values_submitted 9 (country "GB")) (
          Reach.next (values_submitted 9 (identity "Ada" "King" "1815-12-10" "44" "1"))
            Reach.mounted))))

Reach-has_country_example :
    (1 ≤ finished.step)
    × (finished.step ≤ 5)
    × ((finished.step ≤ 2) ⊎ HasCountry finished.user_information)
    × ((finished.step ≤ 3) ⊎ HasAddress finished.user_information)
    × All IsFilled finished.submitted
Reach-has_country_example = Reach-has_country five finished-Reach

identity_round_trip_example :
    show_identity (merge empty_information (identity "Ada" "King" "1815-12-10" "44" "20-7946(1)"))
    ≡ record {
      first_name = "Ada";
      last_name = "King";
      dob = "1815-12-10";
      phone_prefix = some (codes "44");
      phone_number = some (codes "20-7946(1)");
    }
unfolding mobile_accepts
identity_round_trip_example =
    identity_round_trip five 9 empty_information "Ada" "King" "1815-12-10" "44" "20-7946(1)" refl
      (ground arith)
