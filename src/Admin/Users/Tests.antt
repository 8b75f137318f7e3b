-- ===== src/Admin/Users/Tests.antt =====
-- A run of the page frontend/src/pages/admin/Users.tsx.
use reference_wallet.Base.{◌≡◌, refl, true, false, none, [], ◌∷◌, ◌++◌, codes}
use reference_wallet.Admin.Users.{
  User, Users, mount, listed, press, close, settled, sort_users, run,
}
use reference_wallet.Admin.Users.Confirmed.{block-IsConfirmed}

abbrev lee : User
lee = record {
  id = 4;
  username = codes "lee";
  first_name = codes "Ann";
  last_name = codes "Lee";
  registration_status = codes "Approved";
  is_blocked = false;
}

abbrev king : User
king = record lee { id = 7; last_name = codes "King" }

abbrev listing : Users
listing = run mount (settled 0 (listed (lee ∷ king ∷ [])) ∷ [])

sorted : sort_users (lee ∷ king ∷ []) ≡ king ∷ lee ∷ []
unfolding sort_users
sorted = refl

block-IsConfirmed_example :
    ((run listing (press 1 ∷ (settled 0 (listed []) ∷ []) ++ close true ∷ [])).asked ≡ 4 ∷ [])
    × ((run listing (press 1 ∷ (settled 0 (listed []) ∷ []) ++ close true ∷ [])).blocked_user
        ≡ none)
    × ((run listing (press 0 ∷ close false ∷ [])).asked ≡ [])
unfolding run mount
block-IsConfirmed_example =
    block-IsConfirmed listing 1 lee (settled 0 (listed []) ∷ []) (press 0 ∷ close false ∷ []) true
      refl refl (tt, tt) (tt, (tt, tt))
