-- ===== src/Auth/Tests.antt =====
-- Runs of the forms, and the theorem at a concrete run.
use reference_wallet.Base.{codes, ◌≡◌, refl, false, none, some, [], ◌∷◌, All}
use reference_wallet.Transfer.Machine.{ok}
use reference_wallet.Auth.{
  SubmitStatus, Signup, Reset, Forgot, is_strong, submit_signup, finish_signup, open_reset,
  submit_reset, submit_forgot, finish_forgot, fire,
}
use reference_wallet.Auth.Strong.{opened, typed, submitted, IsProper, reset-IsProper}

no_digit : is_strong (codes "abcdefghi") ≡ false
unfolding is_strong
no_digit = refl

too_short : is_strong (codes "abc1234") ≡ false
unfolding is_strong
too_short = refl

abbrev newcomer : Signup
newcomer = record {
  username = codes "ann";
  password = codes "abc12345";
  submit_status = SubmitStatus.edit;
  error_message = none;
  awaiting = [];
  stored = none;
}

signed_up : (finish_signup (ok (codes "t")) (submit_signup newcomer)).stored ≡ some (codes "t")
unfolding finish_signup submit_signup
signed_up = refl

abbrev forgetful : Forgot
forgetful = record {
  username = codes "ann";
  submit_status = SubmitStatus.edit;
  error_message = none;
  password_reset_token = none;
  awaiting = [];
  timers = [];
}

token_after_timer :
    (fire 0 (finish_forgot (ok (codes "t")) (submit_forgot forgetful))).password_reset_token
    ≡ some (codes "t")
unfolding fire finish_forgot submit_forgot
token_after_timer = refl

abbrev asked : Reset
asked = submit_reset (record (open_reset (some (codes "t"))) {
  password = codes "abc12345";
  password_confirmation = codes "abc12345";
})

asked_awaits : asked.awaiting ≡ (codes "t", codes "abc12345") ∷ []
unfolding submit_reset open_reset
asked_awaits = refl

reset-IsProper_example : All (IsProper (some (codes "t"))) asked.awaiting
reset-IsProper_example =
    reset-IsProper (some (codes "t"))
      (submitted (typed (codes "abc12345") (codes "abc12345") opened))
