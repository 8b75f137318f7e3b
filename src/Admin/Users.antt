-- ===== src/Admin/Users.antt =====
-- The page frontend/src/pages/admin/Users.tsx and its list, components/UsersList.tsx with
-- components/ConfirmationModal.tsx. A text is the list of its UTF-16 code units. The refresh of the
-- token writes no state of its own.
pub mod Order
pub mod Confirmed
mod Tests
use reference_wallet.Base.{
  ℕ, Bool, true, false, not, ◌&&◌, ◌||◌, Option, none, some, List, [], ◌∷◌, ltb, ◌==◌,
  if◌then◌else◌, get_elem?, erase_idx,
}
use reference_wallet.Send.Intents.{text_eq}

-- What the list reads of a `User`.
pub record User : Type 0 where
  pub id : ℕ
  pub username : List ℕ
  pub first_name : List ℕ
  pub last_name : List ℕ
  pub registration_status : List ℕ
  pub is_blocked : Bool

-- The operator `>` on texts.
unfoldable pub text_gt : List ℕ → List ℕ → Bool
text_gt [] t = false
text_gt (c ∷ cs) [] = true
text_gt (c ∷ cs) (d ∷ ds) = let rest = text_gt cs ds in if c == d then rest else ltb d c

-- Whether the comparison of the list gives 1, and not -1.
unfoldable pub comes_after : User → User → Bool
unfolding text_eq text_gt
comes_after a b =
    if text_eq a.last_name b.last_name
    then (if text_eq a.first_name b.first_name
        then text_gt a.username b.username
        else text_gt a.first_name b.first_name)
    else text_gt a.last_name b.last_name

-- `sort` by the comparison. The order of two users with all three texts equal is left open by the
-- language; here they stay as they are.
unfoldable pub insert : User → List User → List User
unfolding comes_after
insert u [] = u ∷ []
insert u (v ∷ vs) = let rest = insert u vs in if comes_after u v then v ∷ rest else u ∷ v ∷ vs

unfoldable pub sort_users : List User → List User
unfolding insert
sort_users [] = []
sort_users (u ∷ us) = insert u (sort_users us)

-- `UserStatus`: `RegistrationStatus | "Blocked"`.
pub data UserStatus : Type 0 where
  blocked : UserStatus
  registration : List ℕ → UserStatus

abbrev pub status_of : User → UserStatus
status_of u = if u.is_blocked then blocked else registration u.registration_status

-- The button of a blocked user is disabled.
abbrev pub can_block : UserStatus → Bool
can_block blocked = false
can_block (registration _) = true

pub data Pending : Type 0 where
  first_list : Pending
  blocking : ℕ → Pending
  listing_blocked : Pending

-- `blocked_user` is the user whom the confirmation asks about; `asked` is the history of the calls of
-- `blockUser`, latest first.
pub record Users : Type 0 where
  pub users : List User
  pub blocked_user : Option User
  pub is_outdated : Bool
  pub pending : List Pending
  pub asked : List ℕ

pub data Ending : Type 0 where
  listed : List User → Ending
  done thrown : Ending

unfoldable pub mount : Users
mount = record {
  users = [];
  blocked_user = none;
  is_outdated = false;
  pending = Pending.first_list ∷ [];
  asked = [];
}

-- `confirmBlock` on the item of a user, if its button is there.
unfoldable pub confirm_block : Option User → Users → Users
confirm_block none s = s
confirm_block (some u) s = if can_block (status_of u) then record s { blocked_user = some u } else s

-- `blockUser` up to its first `await`.
unfoldable pub block_user : ℕ → Users → Users
block_user user_id s = record s {
  pending = Pending.blocking user_id ∷ s.pending;
  asked = user_id ∷ s.asked;
}

-- The confirmation is open while there is a user to ask about.
unfoldable pub on_close_confirmation : Bool → Option User → Users → Users
unfolding block_user
on_close_confirmation confirmed none s = s
on_close_confirmation true (some u) s = record (block_user u.id s) { blocked_user = none }
on_close_confirmation false (some u) s = record s { blocked_user = none }

unfoldable pub finish_first_list : Ending → Users → Users
finish_first_list (listed us) s = if not s.is_outdated then record s { users = us } else s
finish_first_list _ s = s

unfoldable pub finish_block : Ending → Users → Users
finish_block done s = record s { pending = Pending.listing_blocked ∷ s.pending }
finish_block _ s = s

unfoldable pub finish_listing_blocked : Ending → Users → Users
finish_listing_blocked (listed us) s = record s { users = us }
finish_listing_blocked _ s = s

unfoldable pub finish : Pending → Ending → Users → Users
unfolding finish_first_list finish_block finish_listing_blocked
finish Pending.first_list e s = finish_first_list e s
finish (Pending.blocking user_id) e s = finish_block e s
finish Pending.listing_blocked e s = finish_listing_blocked e s

unfoldable pub settle_at : Option Pending → ℕ → Ending → Users → Users
unfolding finish
settle_at none i e s = s
settle_at (some p) i e s = finish p e (record s { pending = erase_idx s.pending i })

-- A press on the button of the item at an index of the sorted list, the end of the confirmation, the
-- end of the page, and the end of a call.
pub data Event : Type 0 where
  press : ℕ → Event
  close : Bool → Event
  unmount : Event
  settled : ℕ → Ending → Event

unfoldable pub step : Users → Event → Users
unfolding sort_users confirm_block on_close_confirmation settle_at
step s (press i) = confirm_block (get_elem? (sort_users s.users) i) s
step s (close confirmed) = on_close_confirmation confirmed s.blocked_user s
step s unmount = record s { is_outdated = true }
step s (settled i e) = settle_at (get_elem? s.pending i) i e s

unfoldable pub run : Users → List Event → Users
unfolding step
run s [] = s
run s (e ∷ es) = run (step s e) es
