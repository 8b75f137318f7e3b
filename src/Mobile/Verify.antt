-- ===== src/Mobile/Verify.antt =====
-- The identity wizard of mobile/src/screens/Verify.tsx, with the information and the forms of the web
-- wizard. `accepts_press` tells whether the button of react-native-elements passes a press on when its
-- property `loading` is given. The system's own ways to go back are left out.
pub mod Same
pub mod Stuck
mod Tests
use reference_wallet.Base.{
  ℕ, ◌+◌, ◌-◌, Bool, true, false, not, ◌&&◌, Option, none, some, List, [], ◌∷◌, String, leb, ◌==◌,
  if◌then◌else◌, get_elem?, erase_idx,
}
use reference_wallet.Backend.Http.{join}
use reference_wallet.Transfer.Machine.{Outcome, ok, backend_error, other_error}
use reference_wallet.Verify.{SubmitStatus, Fake, empty_information}
use reference_wallet.Verify.Forms.{
  UserInfo, StepValues, default_currency, merge, step_of, mobile_accepts,
}

-- The calls that `submit` awaits: `updateUserInfo`, and `setStackRoot` after it.
pub data Pending : Type 0 where
  updating rooting : Pending

-- `loading` is the state of the last step's form. `submitted` is the history of the calls of
-- `updateUserInfo`, and `updated` that of those that were carried out, latest first; `is_closed` once
-- the screen "Home" stands in place of the wizard.
pub record Wizard : Type 0 where
  pub step : ℕ
  pub user_information : UserInfo
  pub error_message : Option String
  pub submit_status : SubmitStatus
  pub loading : Bool
  pub pending : List (Pending × UserInfo)
  pub submitted : List UserInfo
  pub updated : List UserInfo
  pub is_closed : Bool

unfoldable pub mount : Wizard
unfolding empty_information
mount = record {
  step = 1;
  user_information = empty_information;
  error_message = none;
  submit_status = SubmitStatus.edit;
  loading = false;
  pending = [];
  submitted = [];
  updated = [];
  is_closed = false;
}

-- A step's form has its state anew each time it comes.
unfoldable pub next_step : Wizard → Wizard
next_step w = record w { step = w.step + 1; loading = false }

unfoldable pub prev_step : Wizard → Wizard
prev_step w = record w { step = w.step - 1; loading = false }

-- The information of a dummy identity, with the country that faker makes up.
unfoldable pub dummy_information : Fake → String → UserInfo
unfolding empty_information join
dummy_information f country_code = record empty_information {
  first_name = f.first_name;
  last_name = f.last_name;
  dob = f.dob;
  phone = join ("1 " ∷ f.phone ∷ []);
  country = some country_code;
  state = f.state;
  city = f.city;
  address_1 = f.street_address;
  address_2 = "";
  zip = f.zip;
}

-- `submit` up to its first `await`.
unfoldable pub submit : UserInfo → Wizard → Wizard
submit info w = record w {
  error_message = none;
  submit_status = SubmitStatus.sending;
  pending = (Pending.updating, info) ∷ w.pending;
  submitted = info ∷ w.submitted;
}

abbrev pub fail : String → Wizard → Wizard
fail message w = record w { submit_status = SubmitStatus.fail; error_message = some message }

-- What follows each `await`.
unfoldable pub finish_submit : Pending → UserInfo → Outcome (Unit {0}) → Wizard → Wizard
finish_submit Pending.updating info (ok _) w = record w {
  pending = (Pending.rooting, info) ∷ w.pending;
  updated = info ∷ w.updated;
}
finish_submit Pending.rooting info (ok _) w = record w {
  submit_status = SubmitStatus.success;
  is_closed = true;
}
finish_submit _ info (backend_error message) w = fail message w
finish_submit _ info other_error w = fail "Internal Error" w

unfoldable pub settle_at : Option (Pending × UserInfo) → ℕ → Outcome (Unit {0}) → Wizard → Wizard
unfolding finish_submit
settle_at none i o w = w
settle_at (some (p, info)) i o w =
    finish_submit p info o (record w { pending = erase_idx w.pending i })

-- The last step's form starts to load, and the wizard submits; the others go on.
unfoldable pub submit_values : StepValues → Wizard → Wizard
unfolding merge submit next_step
submit_values (default_currency code) w =
    let info = merge w.user_information (default_currency code) in
    submit info (record w { user_information = info; loading = true })
submit_values v w = next_step (record w { user_information = merge w.user_information v })

pub data Event : Type 0 where
  values_submitted : ℕ → StepValues → Event
  document_submitted : Event
  back : Event
  dummy_chosen : Fake → String → Event
  settled : ℕ → Outcome (Unit {0}) → Event

module _ (moment : String → Option ℕ) (accepts_press : Bool → Bool) where
  -- A press while the wizard is on the screen. Only the last step's button can be loading, and the dummy
  -- identities stand on the first step.
  unfoldable pub press : Wizard → Event → Wizard
  unfolding mobile_accepts submit_values next_step prev_step dummy_information
  press w (values_submitted now v) =
      if (w.step == step_of v && accepts_press w.loading) && mobile_accepts moment now v
      then submit_values v w
      else w
  press w document_submitted = if w.step == 4 then next_step w else w
  press w back = if leb 2 w.step && leb w.step 5 then prev_step w else w
  press w (dummy_chosen f country_code) =
      if w.step == 1 then record w { user_information = dummy_information f country_code } else w
  press w (settled i o) = w

  unfoldable pub run_event : Wizard → Event → Wizard
  unfolding press settle_at
  run_event w (settled i o) = settle_at (get_elem? w.pending i) i o w
  run_event w e = if w.is_closed then w else press w e

  pub data Reach : Wizard → Type 0 where
    mounted : Reach mount
    next : {w : Wizard} (e : Event) → Reach w → Reach (run_event w e)
