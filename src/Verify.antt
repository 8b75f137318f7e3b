-- ===== src/Verify.antt =====
-- The identity wizard of frontend/src/pages/Verify.tsx: its steps, the information that they gather,
-- and the submission at the last one. The forms of the steps are in Verify/Forms.antt.
pub mod Forms
pub mod Phone
pub mod Runs
mod Tests
use reference_wallet.Base.{
  ℕ, ◌+◌, ◌-◌, ◌&&◌, Option, none, some, List, [], ◌∷◌, String, leb, ◌==◌, if◌then◌else◌,
}
use reference_wallet.Backend.Http.{join}
use Forms.{UserInfo, StepValues, default_currency, merge, step_of, accepts}
use reference_wallet.Transfer.Machine.{Outcome, ok, backend_error, other_error}

pub data SubmitStatus : Type 0 where
  edit sending fail success : SubmitStatus

-- `submitted` is the history of the calls of `updateUserInfo`, latest first, and `in_flight` counts
-- those that are awaited.
pub record Wizard : Type 0 where
  pub step : ℕ
  pub user_information : UserInfo
  pub document_file : Option String
  pub error_message : Option String
  pub submit_status : SubmitStatus
  pub in_flight : ℕ
  pub submitted : List UserInfo

unfoldable pub empty_information : UserInfo
empty_information = record {
  selected_fiat_currency = "USD";
  selected_language = "en";
  first_name = "";
  last_name = "";
  dob = "";
  phone = "1 ";
  country = none;
  state = "";
  city = "";
  address_1 = "";
  address_2 = "";
  zip = "";
}

unfoldable pub mount : Wizard
unfolding empty_information
mount = record {
  step = 1;
  user_information = empty_information;
  document_file = none;
  error_message = none;
  submit_status = SubmitStatus.edit;
  in_flight = 0;
  submitted = [];
}

unfoldable pub next_step : Wizard → Wizard
next_step w = record w { step = w.step + 1 }

unfoldable pub prev_step : Wizard → Wizard
prev_step w = record w { step = w.step - 1 }

-- What the package faker makes up, and the information that a dummy identity is made of.
pub record Fake : Type 0 where
  pub first_name : String
  pub last_name : String
  pub dob : String
  pub phone : String
  pub state : String
  pub city : String
  pub street_address : String
  pub zip : String

unfoldable pub dummy_information : Fake → UserInfo
unfolding empty_information join
dummy_information f = record empty_information {
  first_name = f.first_name;
  last_name = f.last_name;
  dob = f.dob;
  phone = join ("1" ∷ " " ∷ f.phone ∷ []);
  country = some "US";
  state = f.state;
  city = f.city;
  address_1 = f.street_address;
  address_2 = "";
  zip = f.zip;
}

unfoldable pub submit : UserInfo → Wizard → Wizard
submit info w = record w {
  error_message = none;
  submit_status = SubmitStatus.sending;
  in_flight = w.in_flight + 1;
  submitted = info ∷ w.submitted;
}

-- What follows the `await` in `submit`.
unfoldable pub finish_submit : Outcome (Unit {0}) → Wizard → Wizard
finish_submit (ok _) w = record w { submit_status = SubmitStatus.success }
finish_submit (backend_error message) w = record w {
  submit_status = SubmitStatus.fail;
  error_message = some message;
}
finish_submit other_error w = record w {
  submit_status = SubmitStatus.fail;
  error_message = some "Internal Error";
}

-- The last step submits, the others go on.
unfoldable pub submit_values : StepValues → Wizard → Wizard
unfolding merge submit next_step
submit_values (default_currency code) w =
    let info = merge w.user_information (default_currency code) in
    submit info (record w { user_information = info })
submit_values v w = next_step (record w { user_information = merge w.user_information v })

pub data Event : Type 0 where
  values_submitted : ℕ → StepValues → Event
  document_submitted : Option String → Event
  back : Event
  dummy_chosen : Fake → Event
  submit_settled : Outcome (Unit {0}) → Event

-- An event that the step on the screen does not offer changes nothing. The first step has no button
-- to go back, and the dummy identities stand below the first three. A form submits its values at a time
-- `now`, and reads a date by `moment`.
module _ (moment : String → Option ℕ) where
  unfoldable pub run_event : Wizard → Event → Wizard
  unfolding accepts submit_values next_step prev_step dummy_information finish_submit
  run_event w (values_submitted now v) =
      if w.step == step_of v && accepts moment now v then submit_values v w else w
  run_event w (document_submitted file) =
      if w.step == 4 then next_step (record w { document_file = file }) else w
  run_event w back = if leb 2 w.step && leb w.step 5 then prev_step w else w
  run_event w (dummy_chosen f) =
      if leb 1 w.step && leb w.step 3
      then record w { user_information = dummy_information f }
      else w
  run_event w (submit_settled o) =
      if w.in_flight == 0 then w else finish_submit o (record w { in_flight = w.in_flight - 1 })
