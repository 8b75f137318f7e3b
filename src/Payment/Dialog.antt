-- ===== src/Payment/Dialog.antt =====
-- frontend/src/components/PaymentConfirmation.tsx, the page that reads a payment link, and
-- PaymentConfirmationModal.tsx, the dialog that asks for the user's decision: their states, and the
-- promises and timers they wait for. The title and the buttons are the dialog's view.
pub mod Runs
mod Tests
use Prim.Native.String
use text.Mathlib.Text.{◌==◌ as str_eq}
use reference_wallet.Base.{
  ℕ, zero, suc, ◌-◌, Bool, true, false, not, ◌&&◌, ◌||◌, Option, none, some, List, [], ◌∷◌, String,
  if◌then◌else◌, get_elem?, erase_idx,
}
use reference_wallet.Payment.Params.{
  PaymentParams, PaymentDetails, Browser, Parsed, from_url_query_string, from_payment_details,
}

-- Where the browser is: at the page with the link, at the home page, or at another site.
pub data Location : Type 0 where
  here home : Location
  external : String → Location

pub record Page : Type 0 where
  pub show_error : Bool
  pub payment_params : Option PaymentParams
  pub location : Location

abbrev pub page_of : Parsed PaymentParams → Page
page_of (Parsed.ok p) = record { show_error = false; payment_params = some p; location = here }
page_of (Parsed.err e) = record { show_error = true; payment_params = none; location = here }

-- The page at a query string; an empty one is not read.
unfoldable pub load_page : Browser → String → Page
unfolding from_url_query_string
load_page b query_string =
    if str_eq query_string ""
    then record { show_error = false; payment_params = none; location = here }
    else page_of (from_url_query_string b query_string)

abbrev pub is_some : {A : Type 0} → Option A → Bool
is_some none = false
is_some (some a) = true

abbrev pub shows_dialog : String → Page → Bool
shows_dialog query_string p = not (str_eq query_string "") && is_some p.payment_params

unfoldable pub on_payment_request_handling_complete : Page → Page
on_payment_request_handling_complete p = record p { show_error = false; location = home }

abbrev pub redirect_url_of : Option PaymentParams → Option String
redirect_url_of none = none
redirect_url_of (some p) = p.redirect_url

abbrev pub assign_location : Option String → Page → Page
assign_location none p = p
assign_location (some url) p = record p { location = external url }

unfoldable pub handle_redirect : Page → Page
handle_redirect p =
    assign_location (redirect_url_of p.payment_params) (record p { show_error = false })

-- A reply to `getPaymentDetails`: an error, or the details, or nothing yet.
pub data DetailsReply : Type 0 where
  failed : DetailsReply
  replied : Option PaymentDetails → DetailsReply

-- The loop `while (!payment_details)` on the replies so far, and what it does with the page.
pub data Poll : Type 0 where
  waiting given_up : Poll
  arrived : PaymentDetails → Poll

unfoldable pub poll : List DetailsReply → Poll
poll [] = waiting
poll (failed ∷ replies) = given_up
poll (replied (some details) ∷ replies) = arrived details
poll (replied none ∷ replies) = poll replies

unfoldable pub finish_poll : Poll → Page → Page
unfolding from_payment_details
finish_poll (arrived details) p = record p {
  payment_params = some (from_payment_details details (redirect_url_of p.payment_params));
}
finish_poll _ p = p

-- The dialog.
pub data SubmitStatus : Type 0 where
  edit sending fail success : SubmitStatus

pub data Decision : Type 0 where
  approve reject : Decision

-- `asked` and `answered` are the histories of the calls of `approvePayment` and `rejectPayment`,
-- and of those that the backend carried out; `timers` counts the pending calls of `setTimeout`.
pub record Modal : Type 0 where
  pub submit_status : SubmitStatus
  pub timers : ℕ
  pub in_flight : List Decision
  pub asked : List Decision
  pub answered : List Decision

pub data Title : Type 0 where
  none_shown please_confirm error_occurred payment_approved : Title

abbrev pub title_of : SubmitStatus → Title
title_of SubmitStatus.edit = please_confirm
title_of SubmitStatus.sending = none_shown
title_of SubmitStatus.fail = error_occurred
title_of SubmitStatus.success = payment_approved

unfoldable pub title : Modal → Title
title m = title_of m.submit_status

abbrev pub is_open_status : SubmitStatus → Bool
is_open_status SubmitStatus.edit = true
is_open_status SubmitStatus.sending = true
is_open_status _ = false

abbrev pub is_edit : SubmitStatus → Bool
is_edit SubmitStatus.edit = true
is_edit _ = false

-- The buttons stand there for a full payment; the one to reject is disabled while sending.
unfoldable pub shows_approve : PaymentParams → Modal → Bool
shows_approve p m = p.is_full && is_open_status m.submit_status

unfoldable pub shows_reject : PaymentParams → Modal → Bool
shows_reject p m = p.is_full && is_edit m.submit_status

unfoldable pub mount : Modal
mount = record {
  submit_status = SubmitStatus.edit;
  timers = 0;
  in_flight = [];
  asked = [];
  answered = [];
}

-- The effect on `submitStatus`: it runs when the status changes, and a demo's timer starts.
abbrev pub start_timer : SubmitStatus → ℕ → ℕ
start_timer SubmitStatus.edit timers = suc timers
start_timer _ timers = timers

abbrev pub ask : Decision → Modal → Modal
ask d m = record m { in_flight = d ∷ m.in_flight; asked = d ∷ m.asked }

unfoldable pub on_confirm : PaymentParams → Modal → Modal
on_confirm p m =
    if p.demo
    then record m {
      submit_status = SubmitStatus.sending;
      timers = start_timer m.submit_status m.timers;
    }
    else ask Decision.approve m

unfoldable pub on_reject : PaymentParams → Modal → Modal
on_reject p m = if p.demo then m else ask Decision.reject m

-- What follows the awaits. The approval that succeeds changes nothing, and the exception of a
-- rejection that fails is not caught.
unfoldable pub settle : Option Decision → ℕ → Bool → Modal → Modal
settle none i succeeds m = m
settle (some Decision.approve) i true m = record m {
  in_flight = erase_idx m.in_flight i;
  answered = Decision.approve ∷ m.answered;
}
settle (some Decision.approve) i false m = record m {
  in_flight = erase_idx m.in_flight i;
  submit_status = SubmitStatus.fail;
}
settle (some Decision.reject) i true m = record m {
  in_flight = erase_idx m.in_flight i;
  answered = Decision.reject ∷ m.answered;
  submit_status = SubmitStatus.success;
}
settle (some Decision.reject) i false m = record m { in_flight = erase_idx m.in_flight i }

unfoldable pub fire : ℕ → Modal → Modal
fire zero m = m
fire (suc n) m = record m { timers = n; submit_status = SubmitStatus.success }

pub data Event : Type 0 where
  approve_pressed reject_pressed timer : Event
  settled : ℕ → Bool → Event

-- An event that the dialog does not offer changes nothing.
unfoldable pub step : PaymentParams → Modal → Event → Modal
unfolding shows_approve shows_reject on_confirm on_reject settle fire
step p m approve_pressed = if shows_approve p m then on_confirm p m else m
step p m reject_pressed = if shows_reject p m then on_reject p m else m
step p m timer = fire m.timers m
step p m (settled i succeeds) = settle (get_elem? m.in_flight i) i succeeds m
