-- ===== src/Mobile/Transfer.antt =====
-- The forms of mobile/src/screens/Transfer/Withdraw.tsx, Deposit.tsx and Convert.tsx, whose handler
-- `onFormSubmit` is the same but for its call, and the review that each pushes. `accepts_press` tells
-- whether the button of react-native-elements passes a press on when its property `loading` is given.
pub mod Withdraw
pub mod Deposit
pub mod Convert
pub mod Once
pub mod Again
pub mod Answered
pub mod Amounts
mod Tests
use reference_wallet.Base.{
  ℕ, Bool, true, false, not, ◌&&◌, Option, none, some, List, [], ◌∷◌, String, if◌then◌else◌,
  get_elem?, erase_idx,
}
use reference_wallet.Transfer.Machine.{Outcome, ok, backend_error, other_error}
use reference_wallet.Mobile.Review
use reference_wallet.Mobile.Review.{Stack, push, is_on_top, no_screens}

-- `requests` holds the data of the calls for a quote that are awaited; a review gets the quote and,
-- of the data, the funding source.
pub record Screens (D Q : Type 0) : Type 0 where
  pub loading : Bool
  pub error_message : Option String
  pub requests : List D
  pub stack : Stack (Q × D)

pub data Event (D Q : Type 0) : Type 0 where
  submit : D → Event D Q
  quote_settled : ℕ → Outcome Q → Event D Q
  reviewed : Review.Event → Event D Q

-- `onFormSubmit` up to its call.
unfoldable pub on_form_submit : {D Q : Type 0} → D → Screens D Q → Screens D Q
on_form_submit d s = record s { loading = true; error_message = none; requests = d ∷ s.requests }

-- What follows the `await` of the quote; once the form is left there is nothing to push over.
unfoldable pub finish_quote : {D Q : Type 0} → D → Outcome Q → Screens D Q → Screens D Q
unfolding push
finish_quote d (ok q) s = record s {
  loading = false;
  stack = if s.stack.is_closed then s.stack else push (q, d) s.stack;
}
finish_quote d (backend_error e) s = record s { loading = false; error_message = some e }
finish_quote d other_error s = record s { loading = false; error_message = some "Internal Error" }

unfoldable pub settle_quote_at :
    {D Q : Type 0} → Option D → ℕ → Outcome Q → Screens D Q → Screens D Q
unfolding finish_quote
settle_quote_at none i o s = s
settle_quote_at (some d) i o s = finish_quote d o (record s { requests = erase_idx s.requests i })

unfoldable pub mount : {D Q : Type 0} → Screens D Q
mount = record { loading = false; error_message = none; requests = []; stack = no_screens }

module _ {D Q : Type 0} (accepts : D → Bool) (accepts_press : Bool → Bool) where
  unfoldable pub step : Screens D Q → Event D Q → Screens D Q
  unfolding on_form_submit settle_quote_at Review.step
  step s (submit d) =
      if is_on_top s.stack && (accepts_press s.loading && accepts d) then on_form_submit d s else s
  step s (quote_settled i o) = settle_quote_at (get_elem? s.requests i) i o s
  step s (reviewed e) = record s { stack = Review.step s.stack e }

  -- The screens that the presses and the ends of the calls lead to.
  pub data Reach : Screens D Q → Type 0 where
    mounted : Reach mount
    next : {s : Screens D Q} (e : Event D Q) → Reach s → Reach (step s e)
