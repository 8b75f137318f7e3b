-- ===== src/Admin/Users/Confirmed.antt =====
-- Which users the page asks to block.
use reference_wallet.Base.{
  ℕ, ◌≡◌, ◌∙◌, ap, refl, Bool, true, false, Option, none, some, List, [], ◌∷◌, ◌++◌, arith, All,
  get_elem?, if◌then◌else◌,
}
use reference_wallet.Admin.Users.{
  User, Users, Pending, Ending, listed, Event, press, close, unmount, settled, sort_users,
  confirm_block, on_close_confirmation, finish, settle_at, step, run,
}

-- The confirmation and the calls of two states of the page are the same.
record IsSameQuestion (s t : Users) : Type 0 where
  user : t.blocked_user ≡ s.blocked_user
  asked : t.asked ≡ s.asked

finish-IsSameQuestion : (p : Pending) (e : Ending) (s : Users) → IsSameQuestion s (finish p e s)
unfolding finish
finish-IsSameQuestion Pending.first_list (listed us) s = ground arith
finish-IsSameQuestion Pending.first_list e s = ground arith
finish-IsSameQuestion (Pending.blocking i) e s = ground arith
finish-IsSameQuestion Pending.listing_blocked e s = ground arith

settle-IsSameQuestion :
    (p : Option Pending) (i : ℕ) (e : Ending) (s : Users) → IsSameQuestion s (settle_at p i e s)
unfolding settle_at
settle-IsSameQuestion none i e s = record { user = refl; asked = refl }
settle-IsSameQuestion (some p) i e s =
    let h = finish-IsSameQuestion p e _ in record { user = h.user; asked = h.asked }

-- The page ends, or a call does.
abbrev pub IsNoPress : Event → Type 0
IsNoPress (press i) = ⊥
IsNoPress (close confirmed) = ⊥
IsNoPress _ = Unit

step-IsSameQuestion : (s : Users) (e : Event) → IsNoPress e → IsSameQuestion s (step s e)
unfolding step
step-IsSameQuestion s (press i) h = absurd h
step-IsSameQuestion s (close confirmed) h = absurd h
step-IsSameQuestion s unmount h = record { user = refl; asked = refl }
step-IsSameQuestion s (settled i e) h = settle-IsSameQuestion (get_elem? s.pending i) i e s

run-IsSameQuestion : (s : Users) (es : List Event) → All IsNoPress es → IsSameQuestion s (run s es)
unfolding run
run-IsSameQuestion s [] h = record { user = refl; asked = refl }
run-IsSameQuestion s (e ∷ es) (h, hs) =
    let first = step-IsSameQuestion s e h in
    let rest = run-IsSameQuestion (step s e) es hs in
    record { user = rest.user ∙ first.user; asked = rest.asked ∙ first.asked }

run-append : (s : Users) (es fs : List Event) → run s (es ++ fs) ≡ run (run s es) fs
unfolding run
run-append s [] fs = refl
run-append s (e ∷ es) fs = run-append (step s e) es fs

closed :
    (confirmed : Bool) (u : User) (s : Users)
    → s.blocked_user ≡ some u
    → let t = step s (close confirmed) in
      (t.asked ≡ (if confirmed then u.id ∷ s.asked else s.asked)) × (t.blocked_user ≡ none)
unfolding step
closed true u s h = rw h (refl, refl)
closed false u s h = rw h (refl, refl)

chosen :
    (u : User) (i : ℕ) (s : Users)
    → get_elem? (sort_users s.users) i ≡ some u
    → u.is_blocked ≡ false
    → let t = step s (press i) in (t.asked ≡ s.asked) × (t.blocked_user ≡ some u)
unfolding step
chosen u i s h free = rw (h, free) (refl, refl)

-- Anything but a confirmation with "yes".
abbrev pub IsNoConfirmation : Event → Type 0
IsNoConfirmation (close true) = ⊥
IsNoConfirmation _ = Unit

unanswered : (o : Option User) (s : Users) → (on_close_confirmation false o s).asked ≡ s.asked
unfolding on_close_confirmation
unanswered none s = refl
unanswered (some u) s = refl

asking : (o : Option User) (s : Users) → (confirm_block o s).asked ≡ s.asked
unfolding confirm_block
asking none s = refl
asking (some u) s = ground arith

step-unconfirmed : (s : Users) (e : Event) → IsNoConfirmation e → (step s e).asked ≡ s.asked
unfolding step
step-unconfirmed s (press i) h = asking (get_elem? (sort_users s.users) i) s
step-unconfirmed s (close true) h = absurd h
step-unconfirmed s (close false) h = unanswered s.blocked_user s
step-unconfirmed s unmount h = refl
step-unconfirmed s (settled i e) h = (settle-IsSameQuestion (get_elem? s.pending i) i e s).asked

unconfirmed : (s : Users) (es : List Event) → All IsNoConfirmation es → (run s es).asked ≡ s.asked
unfolding run
unconfirmed s [] h = refl
unconfirmed s (e ∷ es) (h, hs) = unconfirmed (step s e) es hs ∙ step-unconfirmed s e h

-- A press on the button of a user who is not blocked, and the answer to the confirmation, with the ends
-- of any calls between them, make the page ask to block this user, once, if the answer is "yes", also
-- when the list was fetched again in between; if the answer is "no", and in any run without a "yes", it
-- asks to block nobody.
pub block-IsConfirmed :
    (s : Users) (i : ℕ) (u : User) (es fs : List Event) (confirmed : Bool)
    → get_elem? (sort_users s.users) i ≡ some u
    → u.is_blocked ≡ false
    → All IsNoPress es
    → All IsNoConfirmation fs
    → ((run s (press i ∷ es ++ close confirmed ∷ [])).asked
        ≡ (if confirmed then u.id ∷ s.asked else s.asked))
      × ((run s (press i ∷ es ++ close confirmed ∷ [])).blocked_user ≡ none)
      × ((run s fs).asked ≡ s.asked)
unfolding run
block-IsConfirmed s i u es fs confirmed h free quiet unsaid =
    let t = step s (press i) in
    let (asked, question) = chosen u i s h free in
    let same = run-IsSameQuestion t es quiet in
    let (calls, answered) = closed confirmed u (run t es) (same.user ∙ question) in
    let before = same.asked ∙ asked in
    (
      ap (λ (v : Users). v.asked) (run-append t es (close confirmed ∷ []))
          ∙ calls
          ∙ ap (λ (x : List ℕ). if confirmed then u.id ∷ x else x) before,
      ap (λ (v : Users). v.blocked_user) (run-append t es (close confirmed ∷ [])) ∙ answered,
      unconfirmed s fs unsaid,
    )
