-- ===== src/App/Routes/Arrives.antt =====
-- Where the redirections of frontend/src/App.tsx end.
use reference_wallet.Base.{
  ℕ, suc, subst, ◌≡◌, ◌∙◌, refl, Bool, true, false, Option, some, List, [], ◌∷◌, String, ◌⊎◌, inl,
  inr, arith, All, Bool-cases, if◌then◌else◌,
}
use reference_wallet.Backend.Http.{LocalStorage, get_access_token}
use reference_wallet.Session.{is_some}
use reference_wallet.App.{User, is_admin}
use reference_wallet.App.Routes.{
  Page, Route, routes, Location, Shown, page, sent, render_route, switch, show, follow,
}

-- The pages for users with a token.
abbrev pub is_for_users : Page → Bool
is_for_users Page.signin = false
is_for_users Page.signup = false
is_for_users Page.forgot_password = false
is_for_users Page.reset_password = false
is_for_users _ = true

-- What react-router's matching does with the two paths that one is sent to: each fits its own route, and
-- "/login" fits no route for users.
pub record FitsPaths (matches : String → String → Bool) : Type 0 where
  pub root : matches "/" "/" ≡ true
  pub login : matches "/login" "/login" ≡ true
  pub others :
      All
        (λ (path : String). matches path "/login" ≡ false)
        ("/" ∷ "/account/:currency" ∷ "/transactions" ∷ "/fundsPullPreApprovals" ∷ "/verify"
          ∷ "/settings" ∷ "/admin/users" ∷ "/admin/admins" ∷ "/admin/liquidity" ∷ [])

abbrev at_root : Location
at_root = record { path = "/"; search = "" }

abbrev at_login : String → Location
at_login search = record { path = "/login"; search = search }

-- What `Switch` shows with and without a token: a page that is right, or the location to go on at.
abbrev Shows : Bool → Location → Shown → Type 0
Shows b l s =
    ((p : Page) × (s ≡ page p) × (is_for_users p ≡ b))
    ⊎ ((s ≡ sent at_root) ⊎ ((s ≡ sent (at_login l.search)) × (b ≡ false)))

route-Shows :
    (b : Bool) (r : Route) (l : Location)
    → is_for_users r.page ≡ r.is_logged_in
    → Shows b l (render_route b r l)
route-Shows true r l h = elim (Bool-cases r.is_logged_in) [
  | inl on ↦ inl (r.page, ground (arith, on), h ∙ on)
  | inr off ↦ inr (inl (ground (arith, off)))
]
route-Shows false r l h = elim (Bool-cases r.is_logged_in) [
  | inl on ↦ inr (inr (ground (arith, on), refl))
  | inr off ↦ inl (r.page, ground (arith, off), h ∙ off)
]

module _ (matches : String → String → Bool) where
  choose-Shows :
      (c : Bool) (b : Bool) (l : Location) (s t : Shown)
      → Shows b l s
      → Shows b l t
      → Shows b l (if c then s else t)
  choose-Shows true b l s t h k = h
  choose-Shows false b l s t h k = k

  switch-Shows :
      (rs : List Route) (b : Bool) (l : Location)
      → All (λ (r : Route). is_for_users r.page ≡ r.is_logged_in) rs
      → Shows b l (switch matches rs b l)
  unfolding switch
  switch-Shows [] b l h = inr (inl refl)
  switch-Shows (r ∷ rs) b l (h, hs) =
      choose-Shows (matches r.path l.path) b l (render_route b r l) (switch matches rs b l)
        (route-Shows b r l h) (switch-Shows rs b l hs)

  home-consistent : (b : Bool) → is_for_users (if b then Page.admin_home else Page.home) ≡ true
  home-consistent true = refl
  home-consistent false = refl

  show-Shows :
      (user : Option User) (storage : LocalStorage) (l : Location)
      → Shows (is_some (get_access_token storage)) l (show matches user storage l)
  unfolding show routes
  show-Shows user storage l = switch-Shows (routes user) (is_some (get_access_token storage)) l (
    home-consistent (is_admin user),
    (
      refl,
      (refl, (refl, (refl, (refl, (refl, (refl, (refl, (refl, (refl, (refl, (refl, tt))))))))))),
    ),
  )

  module _ (fits : FitsPaths matches) (user : Option User) (storage : LocalStorage) where
    -- The home page of the user, and the page to sign in.
    home_page : Page
    home_page = if is_admin user then Page.admin_home else Page.home

    root_shows_home :
        is_some (get_access_token storage) ≡ true
        → show matches user storage at_root ≡ page home_page
    unfolding show switch routes home_page
    root_shows_home token = rw (fits.root, token) refl

    root_sends :
        is_some (get_access_token storage) ≡ false
        → show matches user storage at_root ≡ sent (at_login "")
    unfolding show switch routes
    root_sends token = rw (fits.root, token) refl

    login_shows :
        (search : String)
        → is_some (get_access_token storage) ≡ false
        → show matches user storage (at_login search) ≡ page Page.signin
    unfolding show switch routes
    login_shows search token =
        let (a, (b, (c, (d, (e, (f, (g, (h, (i, u))))))))) = fits.others in
        rw (a, b, c, d, e, f, g, h, i, fits.login, token) refl

    follow_page :
        (n : ℕ) (l : Location) (p : Page)
        → show matches user storage l ≡ page p
        → follow matches (suc n) user storage l ≡ some p
    unfolding follow
    follow_page n l p h = rw (h, follow) refl

    follow_sent :
        (n : ℕ) (l m : Location)
        → show matches user storage l ≡ sent m
        → follow matches (suc n) user storage l ≡ follow matches n user storage m
    unfolding follow
    follow_sent n l m h = rw (h, follow) refl

    Arrives : Bool → ℕ → Location → Type 0
    Arrives b n l = (p : Page) × (follow matches n user storage l ≡ some p) × (is_for_users p ≡ b)

    token-Arrives :
        (l : Location)
        → is_some (get_access_token storage) ≡ true
        → Shows true l (show matches user storage l)
        → Arrives true 3 l
    unfolding Arrives home_page
    token-Arrives l token (inl (p, shown, right)) = (p, follow_page 2 l p shown, right)
    token-Arrives l token (inr (inl root)) = (
      home_page,
      follow_sent 2 l at_root root ∙ follow_page 1 at_root home_page (root_shows_home token),
      home-consistent (is_admin user),
    )
    token-Arrives l token (inr (inr (login, no_token))) = absurd (cc)

    guest-Arrives :
        (l : Location)
        → is_some (get_access_token storage) ≡ false
        → Shows false l (show matches user storage l)
        → Arrives false 3 l
    unfolding Arrives
    guest-Arrives l token (inl (p, shown, right)) = (p, follow_page 2 l p shown, right)
    guest-Arrives l token (inr (inl root)) = (
      Page.signin,
      follow_sent 2 l at_root root
          ∙ follow_sent 1 at_root (at_login "") (root_sends token)
          ∙ follow_page 0 (at_login "") Page.signin (login_shows "" token),
      refl,
    )
    guest-Arrives l token (inr (inr (login, no_token))) = (
      Page.signin,
      follow_sent 2 l (at_login l.search) login
          ∙ follow_page 1 (at_login l.search) Page.signin (login_shows l.search token),
      refl,
    )

    -- Whatever the location, the redirections come to an end after at most two of them: with a token at a
    -- page for users, and without one at a page to sign in, to sign up or to get a new password.
    pub follow-arrives :
        (l : Location)
        → (p : Page) × (follow matches 3 user storage l ≡ some p)
          × (is_for_users p ≡ is_some (get_access_token storage))
    unfolding Arrives
    follow-arrives l = elim (Bool-cases (is_some (get_access_token storage))) [
      | inl token ↦
          let shown = show-Shows user storage l in
          rw token (
            token-Arrives l token
              (subst (λ (b : Bool). Shows b l (show matches user storage l)) token shown))
      | inr token ↦
          let shown = show-Shows user storage l in
          rw token (
            guest-Arrives l token
              (subst (λ (b : Bool). Shows b l (show matches user storage l)) token shown))
    ]
