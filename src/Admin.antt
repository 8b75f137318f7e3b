-- ===== src/Admin.antt =====
-- frontend/src/pages/admin/Admins.tsx, and the form of components/admin/NewAdmin.tsx. A text is the
-- list of its character codes. `U` is a user as
-- the backend lists it.
pub mod Liquidity
pub mod Users
pub mod Unseen
mod Tests
use reference_wallet.Base.{
  ℕ, Bool, true, false, not, ◌&&◌, Option, none, some, List, [], ◌∷◌, leb, length, if◌then◌else◌,
  get_elem?, erase_idx,
}
use reference_wallet.Send.Intents.{text_eq}
use reference_wallet.Auth.{is_strong}

pub data NewAdminStatus : Type 0 where
  editing sending failed inactive : NewAdminStatus

pub record AdminFormData : Type 0 where
  pub first_name : List ℕ
  pub last_name : List ℕ
  pub username : List ℕ
  pub password : List ℕ
  pub password_confirmation : List ℕ

-- The rules of the form.
unfoldable pub accepts : AdminFormData → Bool
unfolding is_strong text_eq
accepts form =
    leb 2 (length form.first_name)
    && (leb 2 (length form.last_name)
        && (leb 1 (length form.username)
            && (is_strong form.password && text_eq form.password_confirmation form.password)))

-- The button to submit stands in an open form that is not being sent.
abbrev pub shows_submit : NewAdminStatus → Bool
shows_submit NewAdminStatus.editing = true
shows_submit NewAdminStatus.failed = true
shows_submit _ = false

-- The calls that are awaited.
pub data Pending : Type 0 where
  first_list : Pending
  creating : AdminFormData → Pending
  listing_created : Pending
  blocking : ℕ → Pending
  listing_blocked : Pending

pub data CreationError : Type 0 where
  already_exists : List ℕ → CreationError
  unexpected_error : CreationError

-- `is_outdated` is the flag of the first fetch; `created` is the history of the calls of
-- `createAdminUser` that the backend carried out, latest first.
pub record Admins (U : Type 0) : Type 0 where
  pub users : List U
  pub status : NewAdminStatus
  pub error : Option CreationError
  pub is_outdated : Bool
  pub pending : List Pending
  pub created : List AdminFormData

-- How a call ends: with a list, with nothing, with `UsernameAlreadyExistsError`, or with another
-- exception.
pub data Ending (U : Type 0) : Type 0 where
  listed : List U → Ending U
  done : Ending U
  username_taken : Ending U
  thrown : Ending U

unfoldable pub open_new_admin : {U : Type 0} → Admins U → Admins U
open_new_admin s = record s { status = NewAdminStatus.editing }

unfoldable pub close_new_admin_modal : {U : Type 0} → Admins U → Admins U
close_new_admin_modal s = record s { status = NewAdminStatus.inactive }

-- `createNewAdmin` up to its first `await`.
unfoldable pub create_new_admin : {U : Type 0} → AdminFormData → Admins U → Admins U
create_new_admin form s = record s {
  status = NewAdminStatus.sending;
  pending = Pending.creating form ∷ s.pending;
}

abbrev pub fail : {U : Type 0} → CreationError → Admins U → Admins U
fail e s = record s { error = some e; status = NewAdminStatus.failed }

-- What follows the `await` of `createAdminUser`.
unfoldable pub finish_creation : {U : Type 0} → AdminFormData → Ending U → Admins U → Admins U
finish_creation form username_taken s = fail (already_exists form.username) s
finish_creation form thrown s = fail unexpected_error s
finish_creation form _ s = record s {
  pending = Pending.listing_created ∷ s.pending;
  created = form ∷ s.created;
}

-- What follows the `await` of `getUsers` after it.
unfoldable pub finish_listing_created : {U : Type 0} → Ending U → Admins U → Admins U
finish_listing_created (listed us) s = record s { status = NewAdminStatus.inactive; users = us }
finish_listing_created _ s = fail unexpected_error s

-- `blockUser` up to its first `await`.
unfoldable pub block_user : {U : Type 0} → ℕ → Admins U → Admins U
block_user user_id s = record s { pending = Pending.blocking user_id ∷ s.pending }

unfoldable pub finish_block : {U : Type 0} → Ending U → Admins U → Admins U
finish_block done s = record s { pending = Pending.listing_blocked ∷ s.pending }
finish_block _ s = s

unfoldable pub finish_listing_blocked : {U : Type 0} → Ending U → Admins U → Admins U
finish_listing_blocked (listed us) s = record s { users = us }
finish_listing_blocked _ s = s

-- `fetchUsers`, after its `await`.
unfoldable pub finish_first_list : {U : Type 0} → Ending U → Admins U → Admins U
finish_first_list (listed us) s = if not s.is_outdated then record s { users = us } else s
finish_first_list _ s = s

unfoldable pub settle : {U : Type 0} → Pending → Ending U → Admins U → Admins U
unfolding finish_creation finish_listing_created finish_block finish_listing_blocked
    finish_first_list
settle Pending.first_list e s = finish_first_list e s
settle (Pending.creating form) e s = finish_creation form e s
settle Pending.listing_created e s = finish_listing_created e s
settle (Pending.blocking user_id) e s = finish_block e s
settle Pending.listing_blocked e s = finish_listing_blocked e s

unfoldable pub settle_at : {U : Type 0} → Option Pending → ℕ → Ending U → Admins U → Admins U
unfolding settle
settle_at none i e s = s
settle_at (some p) i e s = settle p e (record s { pending = erase_idx s.pending i })

unfoldable pub mount : {U : Type 0} → Admins U
mount = record {
  users = [];
  status = NewAdminStatus.inactive;
  error = none;
  is_outdated = false;
  pending = Pending.first_list ∷ [];
  created = [];
}

pub data Event (U : Type 0) : Type 0 where
  open_form close_form : Event U
  submit : AdminFormData → Event U
  block : ℕ → Event U
  unmount : Event U
  settled : ℕ → Ending U → Event U

unfoldable pub step : {U : Type 0} → Admins U → Event U → Admins U
unfolding accepts open_new_admin close_new_admin_modal create_new_admin block_user settle_at
step s open_form = open_new_admin s
step s close_form = close_new_admin_modal s
step s (submit form) = if shows_submit s.status && accepts form then create_new_admin form s else s
step s (block user_id) = block_user user_id s
step s unmount = record s { is_outdated = true }
step s (settled i e) = settle_at (get_elem? s.pending i) i e s
