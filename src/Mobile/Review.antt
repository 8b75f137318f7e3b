-- ===== src/Mobile/Review.antt =====
-- The review that the mobile screens push over their form, of mobile/src/screens/Send/SendReview.tsx and
-- Transfer/WithdrawReview.tsx, DepositReview.tsx and ConvertReview.tsx, once the account is loaded, and
-- the screens over the form, with the buttons of the header mobile/src/components/AppHeader.tsx that
-- ScreenLayout.tsx puts above each of them. The settings that the header opens only cover the screens, and
-- the system's own ways to go back are left out.
pub mod Once
pub mod Props
use reference_wallet.Base.{
  ℕ, zero, suc, Bool, true, false, not, ◌&&◌, Option, none, some, List, [], ◌∷◌, String,
  if◌then◌else◌, get_elem?, set, erase_idx,
}
use reference_wallet.Transfer.Machine.{Outcome, ok, backend_error, other_error}

pub data SubmitStatus : Type 0 where
  edit sending fail success : SubmitStatus

-- `props` are those that the call of the review depends on.
pub record Review (C : Type 0) : Type 0 where
  pub props : C
  pub submit_status : SubmitStatus
  pub error_message : Option String

abbrev pub is_sending : SubmitStatus → Bool
is_sending SubmitStatus.sending = true
is_sending _ = false

abbrev pub is_success : SubmitStatus → Bool
is_success SubmitStatus.success = true
is_success _ = false

-- The buttons to confirm and to go back stand there unless the call succeeded, and are disabled while
-- it is sent.
abbrev pub shows_decision : {C : Type 0} → Review C → Bool
shows_decision r = not (is_success r.submit_status) && not (is_sending r.submit_status)

-- The screens over the form, the top one first, the calls that are awaited by reviews that have been
-- left, and the calls made, latest first; `pushed` counts the reviews and `failed` the calls whose reply
-- told a review that they failed; `is_closed` once the form has been left.
pub record Stack (C : Type 0) : Type 0 where
  pub reviews : List (Review C)
  pub abandoned : List C
  pub asked : List C
  pub pushed : ℕ
  pub failed : ℕ
  pub is_closed : Bool

abbrev pub no_screens : {C : Type 0} → Stack C
no_screens = record {
  reviews = [];
  abandoned = [];
  asked = [];
  pushed = 0;
  failed = 0;
  is_closed = false;
}

-- The form can be pressed when no review stands over it.
abbrev pub no_reviews : {C : Type 0} → List (Review C) → Bool
no_reviews [] = true
no_reviews (r ∷ rs) = false

abbrev pub is_on_top : {C : Type 0} → Stack C → Bool
is_on_top s = no_reviews s.reviews && not s.is_closed

-- `Navigation.push` of a review.
unfoldable pub push : {C : Type 0} → C → Stack C → Stack C
push c s = record s {
  reviews =
      record { props = c; submit_status = SubmitStatus.edit; error_message = none } ∷ s.reviews;
  pushed = suc s.pushed;
}

-- `handleSubmit` up to its call.
abbrev pub handle_submit : {C : Type 0} → Review C → Review C
handle_submit r = record r { submit_status = SubmitStatus.sending }

-- What follows the `await` of the call.
unfoldable pub finish_submit : {C : Type 0} → Outcome (Unit {0}) → Review C → Review C
finish_submit (ok u) r = record r { submit_status = SubmitStatus.success }
finish_submit (backend_error e) r = record r {
  submit_status = SubmitStatus.fail;
  error_message = some e;
}
finish_submit other_error r = record r {
  submit_status = SubmitStatus.fail;
  error_message = some "Internal Error";
}

-- The call of a review that is left is still awaited.
abbrev pub leave : {C : Type 0} → Review C → List C → List C
leave r cs = if is_sending r.submit_status then r.props ∷ cs else cs

abbrev pub leave_all : {C : Type 0} → List (Review C) → List C → List C
leave_all [] cs = cs
leave_all (r ∷ rs) cs = leave r (leave_all rs cs)

-- `goBack` and `goToRoot` of the header, which is there whatever the screen does.
unfoldable pub pop : {C : Type 0} → List (Review C) → Stack C → Stack C
pop [] s = record s { is_closed = true }
pop (r ∷ rs) s = record s { reviews = rs; abandoned = leave r s.abandoned }

unfoldable pub pop_to_root : {C : Type 0} → List (Review C) → Stack C → Stack C
pop_to_root rs s = record s { reviews = []; abandoned = leave_all rs s.abandoned; is_closed = true }

pub data Press : Type 0 where
  confirm go_back go_to_root header_back header_home : Press

-- A press on a button of the top screen, if it is there and enabled.
unfoldable pub press_at : {C : Type 0} → List (Review C) → Press → Stack C → Stack C
unfolding pop pop_to_root
press_at rs Press.header_back s = pop rs s
press_at rs Press.header_home s = pop_to_root rs s
press_at [] Press.confirm s = s
press_at [] Press.go_back s = s
press_at [] Press.go_to_root s = s
press_at (r ∷ rs) Press.confirm s =
    if shows_decision r
    then record s { reviews = handle_submit r ∷ rs; asked = r.props ∷ s.asked }
    else s
press_at (r ∷ rs) Press.go_back s = if shows_decision r then record s { reviews = rs } else s
press_at (r ∷ rs) Press.go_to_root s =
    if is_success r.submit_status then pop_to_root (r ∷ rs) s else s

abbrev pub failed_after : Outcome (Unit {0}) → ℕ → ℕ
failed_after (ok u) n = n
failed_after (backend_error e) n = suc n
failed_after other_error n = suc n

-- The call of the review at `i` ends, if it is awaited.
unfoldable pub settle_at :
    {C : Type 0} → Option (Review C) → ℕ → Outcome (Unit {0}) → Stack C → Stack C
unfolding finish_submit
settle_at none i o s = s
settle_at (some r) i o s =
    if is_sending r.submit_status
    then record s {
      reviews = set s.reviews i (finish_submit o r);
      failed = failed_after o s.failed;
    }
    else s

-- The reply to a review that has been left reaches no screen.
pub data Event : Type 0 where
  press : Press → Event
  settled : ℕ → Outcome (Unit {0}) → Event
  abandoned_settled : ℕ → Event

unfoldable pub step : {C : Type 0} → Stack C → Event → Stack C
unfolding press_at settle_at
step s (press b) = press_at s.reviews b s
step s (settled i o) = settle_at (get_elem? s.reviews i) i o s
step s (abandoned_settled i) = record s { abandoned = erase_idx s.abandoned i }
