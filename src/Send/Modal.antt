-- ===== src/Send/Modal.antt =====
-- The dialog of frontend/src/components/Send/SendModal.tsx and SendReview.tsx, once the account is
-- loaded: its state, the promises that `sendTransaction` awaits, and the events that reach it.
pub mod Runs
pub mod Payable
pub mod Flight
use reference_wallet.Base.{
  ℕ, Bool, true, false, not, ◌&&◌, Option, none, some, List, [], ◌∷◌, String, if◌then◌else◌,
  get_elem?, erase_idx,
}
use mathlib.Core.Option
use reference_wallet.Amount.{diem_amount_from_float}
use reference_wallet.Transfer.Machine.{Outcome, ok, backend_error, other_error}
use reference_wallet.Send.Form.{SendData, CurrencyBalance, accepts}

pub data Status : Type 0 where
  edit sending fail success : Status

pub record Dialog : Type 0 where
  pub data_sent : SendData
  pub reviewing : Bool
  pub submit_status : Status
  pub error_message : Option String
  pub sent_transaction_id : Option ℕ

-- The promises of `createTransaction` and of `refreshUser`, and that of the refresh at the mount.
pub data Pending : Type 0 where
  creating refreshing opening : Pending

-- The arguments of `createTransaction`. A missing field is passed on as it is.
pub record Transaction : Type 0 where
  pub currency : Option (List ℕ)
  pub amount : Option ℕ
  pub address : Option (List ℕ)

-- `asked` is the history of the calls of `createTransaction`, latest first.
pub record World : Type 0 where
  pub dialog : Dialog
  pub in_flight : List Pending
  pub asked : List Transaction

abbrev pub is_sending : Status → Bool
is_sending Status.sending = true
is_sending _ = false

abbrev pub is_success : Status → Bool
is_success Status.success = true
is_success _ = false

unfoldable pub transaction_of : SendData → Transaction
transaction_of d = record {
  currency = d.currency;
  amount = Option.map diem_amount_from_float d.amount;
  address = d.address;
}

-- The form stands there unless the dialog is reviewing. The review's buttons to confirm and to go
-- back stand there unless `submitted`, and are disabled while `submitting`; the button to complete
-- stands there when `submitted`.
abbrev pub shows_decision : Dialog → Bool
shows_decision d =
    d.reviewing && (not (is_success d.submit_status) && not (is_sending d.submit_status))

unfoldable pub send_transaction : World → World
unfolding transaction_of
send_transaction w = record {
  dialog = record w.dialog { error_message = none; submit_status = Status.sending };
  in_flight = Pending.creating ∷ w.in_flight;
  asked = transaction_of w.dialog.data_sent ∷ w.asked;
}

-- The `catch` of `sendTransaction`.
abbrev pub with_failure : String → World → World
with_failure message w = record w {
  dialog = record w.dialog { submit_status = Status.fail; error_message = some message };
}

unfoldable pub created : Outcome ℕ → World → World
created (ok id) w = record w {
  dialog = record w.dialog { sent_transaction_id = some id; submit_status = Status.success };
  in_flight = Pending.refreshing ∷ w.in_flight;
}
created (backend_error message) w = with_failure message w
created other_error w = with_failure "Internal Error" w

unfoldable pub refreshed : Outcome (Unit {0}) → World → World
refreshed (ok _) w = w
refreshed (backend_error message) w = with_failure message w
refreshed other_error w = with_failure "Internal Error" w

pub data Event : Type 0 where
  submit : SendData → Event
  back confirm close : Event
  create_settled : ℕ → Outcome ℕ → Event
  refresh_settled : ℕ → Outcome (Unit {0}) → Event

unfoldable pub settle_create : Option Pending → ℕ → Outcome ℕ → World → World
unfolding created
settle_create (some Pending.creating) i o w =
    created o (record w { in_flight = erase_idx w.in_flight i })
settle_create _ i o w = w

unfoldable pub settle_refresh : Option Pending → ℕ → Outcome (Unit {0}) → World → World
unfolding refreshed
settle_refresh (some Pending.refreshing) i o w =
    refreshed o (record w { in_flight = erase_idx w.in_flight i })
-- The refresh at the mount only writes to the console.
settle_refresh (some Pending.opening) i o w = record w { in_flight = erase_idx w.in_flight i }
settle_refresh _ i o w = w

module _ (balances : List CurrencyBalance) (initial_currency : Option (List ℕ))
    (fiat_code : List ℕ) where
  pub empty_dialog : Dialog
  empty_dialog = record {
    data_sent = record {
      currency = initial_currency;
      fiat_currency = fiat_code;
      amount = none;
      address = none;
    };
    reviewing = false;
    submit_status = Status.edit;
    error_message = none;
    sent_transaction_id = none;
  }

  unfoldable pub mount : World
  unfolding empty_dialog
  mount = record { dialog = empty_dialog; in_flight = Pending.opening ∷ []; asked = [] }

  -- An event that the dialog does not offer changes nothing.
  unfoldable pub step : World → Event → World
  unfolding empty_dialog accepts send_transaction settle_create settle_refresh
  step w (Event.submit d) =
      if not w.dialog.reviewing && accepts balances d
      then record w { dialog = record w.dialog { data_sent = d; reviewing = true } }
      else w
  step w Event.back =
      if shows_decision w.dialog
      then record w { dialog = record w.dialog { reviewing = false; error_message = none } }
      else w
  step w Event.confirm = if shows_decision w.dialog then send_transaction w else w
  step w Event.close = record w { dialog = empty_dialog }
  step w (Event.create_settled i o) = settle_create (get_elem? w.in_flight i) i o w
  step w (Event.refresh_settled i o) = settle_refresh (get_elem? w.in_flight i) i o w
