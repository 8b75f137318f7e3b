-- ===== src/App/Routes.antt =====
-- The routes of frontend/src/App.tsx with the redirections of utils/auth-routes.tsx. `matches` tells whether
-- a location's path fits a route's `path` under `exact`: it is react-router's.
pub mod Arrives
use text.Mathlib.Text.{◌==◌ as str_eq}
use reference_wallet.Base.{
  ℕ, suc, zero, Bool, true, false, ◌&&◌, Option, none, some, List, [], ◌∷◌, String, ◌≡◌, refl, ◌⊎◌,
  inl, inr, arith, All, if◌then◌else◌, Bool-cases, Option-cases,
}
use reference_wallet.Backend.Http.{LocalStorage, get_access_token}
use reference_wallet.Session.{Rendered, component, redirect, is_some}
use reference_wallet.App.{User, is_admin}

pub data Page : Type 0 where
  admin_home home account transactions funds_pull_pre_approvals verify settings : Page
  users admins liquidity signin signup forgot_password reset_password : Page

-- A route is for users with a token, or for those without one.
pub record Route : Type 0 where
  pub path : String
  pub page : Page
  pub is_logged_in : Bool

abbrev pub logged_in : String → Page → Route
logged_in path page = record { path = path; page = page; is_logged_in = true }

abbrev pub logged_out : String → Page → Route
logged_out path page = record { path = path; page = page; is_logged_in = false }

unfoldable pub routes : Option User → List Route
routes user =
    logged_in "/" (if is_admin user then Page.admin_home else Page.home)
    ∷ logged_in "/account/:currency" Page.account
    ∷ logged_in "/transactions" Page.transactions
    ∷ logged_in "/fundsPullPreApprovals" Page.funds_pull_pre_approvals
    ∷ logged_in "/verify" Page.verify
    ∷ logged_in "/settings" Page.settings
    ∷ logged_in "/admin/users" Page.users
    ∷ logged_in "/admin/admins" Page.admins
    ∷ logged_in "/admin/liquidity" Page.liquidity
    ∷ logged_out "/login" Page.signin
    ∷ logged_out "/signup" Page.signup
    ∷ logged_out "/forgot-password" Page.forgot_password
    ∷ logged_out "/reset-password" Page.reset_password
    ∷ []

pub record Location : Type 0 where
  pub path : String
  pub search : String

-- What is shown at a location: a page, or another location that one is sent to.
pub data Shown : Type 0 where
  page : Page → Shown
  sent : Location → Shown

-- `LoggedInRoute` and `LoggedOutRoute`.
abbrev pub render_route : Bool → Route → Location → Shown
render_route has_token r l =
    if r.is_logged_in
    then (if has_token then page r.page else sent (record { path = "/login"; search = l.search }))
    else (if has_token then sent (record { path = "/"; search = "" }) else page r.page)

module _ (matches : String → String → Bool) where
  -- `Switch` renders the first route that fits, and the `Redirect` at its end if none does.
  unfoldable pub switch : List Route → Bool → Location → Shown
  switch [] has_token l = sent (record { path = "/"; search = "" })
  switch (r ∷ rs) has_token l =
      let rest = switch rs has_token l in
      if matches r.path l.path then render_route has_token r l else rest

  unfoldable pub show : Option User → LocalStorage → Location → Shown
  unfolding switch routes get_access_token
  show user storage l = switch (routes user) (is_some (get_access_token storage)) l

  -- Following the redirections, with the number of steps that are taken at most.
  unfoldable pub follow : ℕ → Option User → LocalStorage → Location → Option Page
  unfolding show
  follow zero user storage l = none
  follow (suc n) user storage l =
      let go_on = follow n user storage in
      elim (show user storage l) [ page p ↦ some p | sent m ↦ go_on m ]
