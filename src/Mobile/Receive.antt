-- ===== src/Mobile/Receive.antt =====
-- The screen mobile/src/screens/Receive.tsx, once the account is loaded.
mod Tests
pub mod Shared
use reference_wallet.Base.{ℕ, Bool, true, false, Option, none, some, List, [], ◌∷◌, ◌++◌, String}
use reference_wallet.Receive.{SubmitStatus}
use reference_wallet.Send.Intents.{addr_protocol_prefix, value_text}
use reference_wallet.Transfer.Machine.{Outcome, ok, backend_error, other_error}

-- `asked` is the currency with which the address is created, and `is_waiting` whether its call is awaited.
pub record Receive : Type 0 where
  pub selected_currency : Option (List ℕ)
  pub submit_status : SubmitStatus
  pub error_message : Option String
  pub receiving_address : Option (List ℕ)
  pub asked : Option (List ℕ)
  pub is_waiting : Bool

-- The effect of the mount creates an address for the currency of the screen that pushed this one, if
-- there is one.
unfoldable pub mount : Option (List ℕ) → Receive
mount currency = record {
  selected_currency = currency;
  submit_status = SubmitStatus.sending;
  error_message = none;
  receiving_address = none;
  asked = currency;
  is_waiting = true;
}

abbrev pub intent_of : Option (List ℕ) → List ℕ
intent_of none = []
intent_of (some []) = []
intent_of (some (c ∷ cs)) = b'?' ∷ b'c' ∷ b'=' ∷ c ∷ cs

-- `addressWithIntents`; an address that has not come is the text "undefined".
unfoldable pub address_with_intents : Receive → List ℕ
address_with_intents s =
    addr_protocol_prefix ++ value_text s.receiving_address ++ intent_of s.selected_currency

-- What follows the `await`.
unfoldable pub finish_fetch : Bool → Outcome (List ℕ) → Receive → Receive
finish_fetch true (ok address) s = record s {
  receiving_address = some address;
  submit_status = SubmitStatus.success;
  is_waiting = false;
}
finish_fetch true (backend_error e) s = record s {
  submit_status = SubmitStatus.fail;
  error_message = some e;
  is_waiting = false;
}
finish_fetch true other_error s = record s {
  submit_status = SubmitStatus.fail;
  error_message = some "Internal Error";
  is_waiting = false;
}
finish_fetch false o s = s

pub data Event : Type 0 where
  select : Option (List ℕ) → Event
  settled : Outcome (List ℕ) → Event

unfoldable pub step : Receive → Event → Receive
unfolding finish_fetch
step s (select currency) = record s { selected_currency = currency }
step s (settled o) = finish_fetch s.is_waiting o s

unfoldable pub run : Receive → List Event → Receive
unfolding step
run s [] = s
run s (e ∷ es) = run (step s e) es
