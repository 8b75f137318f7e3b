-- ===== src/Receive.antt =====
-- The dialog of frontend/src/components/ReceiveModal.tsx, once the account is loaded. Its refresh of
-- the token, and the copying of the link, write no state that is modelled.
pub mod Links
mod Tests
use reference_wallet.Base.{
  ℕ, Bool, true, false, not, ◌&&◌, Option, none, some, List, [], ◌∷◌, String, if◌then◌else◌,
  get_elem?, erase_idx,
}
use reference_wallet.Send.Intents.{text_eq, receiving_link}
use reference_wallet.Transfer.Machine.{Outcome, ok, backend_error, other_error}

pub data SubmitStatus : Type 0 where
  edit sending fail success : SubmitStatus

-- `pending` holds the currencies of the calls of `fetchReceivingAddress` that await an address.
pub record Receive : Type 0 where
  pub selected_currency : Option (List ℕ)
  pub submit_status : SubmitStatus
  pub error_message : Option String
  pub receiving_address : Option (List ℕ)
  pub receiving_address_with_intents : Option (List ℕ)
  pub pending : List (List ℕ)

-- The rest of `fetchReceivingAddress`, once there is an address.
abbrev pub show_link : List ℕ → List ℕ → Receive → Receive
show_link recv_address currency s = record s {
  receiving_address_with_intents = some (receiving_link recv_address currency);
  submit_status = SubmitStatus.success;
}

abbrev pub with_address : Option (List ℕ) → List ℕ → Receive → Receive
with_address none currency s = record s { pending = currency ∷ s.pending }
with_address (some recv_address) currency s = show_link recv_address currency s

-- `fetchReceivingAddress` up to its `await`, if it comes to one.
unfoldable pub fetch_receiving_address : List ℕ → Receive → Receive
unfolding receiving_link
fetch_receiving_address currency s =
    with_address s.receiving_address currency
      (record s { error_message = none; submit_status = SubmitStatus.sending })

-- What follows the `await`.
unfoldable pub finish_fetch : List ℕ → Outcome (List ℕ) → Receive → Receive
unfolding receiving_link
finish_fetch currency (ok recv_address) s =
    show_link recv_address currency (record s { receiving_address = some recv_address })
finish_fetch currency (backend_error e) s = record s {
  submit_status = SubmitStatus.fail;
  error_message = some e;
}
finish_fetch currency other_error s = record s {
  submit_status = SubmitStatus.fail;
  error_message = some "Internal Error";
}

abbrev pub is_selected : List ℕ → Option (List ℕ) → Bool
is_selected currency none = false
is_selected currency (some c) = text_eq c currency

-- The effect of a change of the currency.
abbrev pub fetch_selected : List ℕ → Receive → Receive
fetch_selected [] s = s
fetch_selected (c ∷ cs) s = fetch_receiving_address (c ∷ cs) s

unfoldable pub select_currency : List ℕ → Receive → Receive
unfolding fetch_receiving_address text_eq
select_currency currency s =
    if is_selected currency s.selected_currency
    then s
    else fetch_selected currency (record s { selected_currency = some currency })

unfoldable pub settle_at : Option (List ℕ) → ℕ → Outcome (List ℕ) → Receive → Receive
unfolding finish_fetch
settle_at none i o s = s
settle_at (some currency) i o s =
    finish_fetch currency o (record s { pending = erase_idx s.pending i })

pub data Event : Type 0 where
  select : List ℕ → Event
  settled : ℕ → Outcome (List ℕ) → Event

unfoldable pub step : Receive → Event → Receive
unfolding select_currency settle_at
step s (select currency) = select_currency currency s
step s (settled i o) = settle_at (get_elem? s.pending i) i o s

abbrev pub closed : Receive
closed = record {
  selected_currency = none;
  submit_status = SubmitStatus.edit;
  error_message = none;
  receiving_address = none;
  receiving_address_with_intents = none;
  pending = [];
}

-- The dialog of an account's page has its currency selected at the mount.
unfoldable pub mount : Option (List ℕ) → Receive
unfolding fetch_receiving_address
mount none = closed
mount (some currency) =
    fetch_selected currency (record closed { selected_currency = some currency })
