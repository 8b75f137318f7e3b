-- ===== src/App.antt =====
-- The component `App` of frontend/src/App.tsx: the settings that its two effects write, and its refresh.
-- The sorting of the balances is left out and taken to succeed, as is the change of the language of i18next.
pub mod Forgets
pub mod Totals
pub mod Routes
mod Tests
use reference_wallet.Base.{ℕ, Bool, true, false, Option, none, some, List, [], ◌∷◌, String, codes}
use reference_wallet.Amount.{whole}
use reference_wallet.Backend.Http.{Exception, Result, ok, err, LocalStorage, get_access_token}
use reference_wallet.Session
use reference_wallet.Rates.{Rate, Currencies, merge_rates}

-- What the settings take from a `User`.
pub record User : Type 0 where
  pub username : String
  pub is_admin : Bool
  pub selected_language : String
  pub selected_fiat_currency : String

-- `WalletTotals`; the count is -1 until it is known.
pub record WalletTotals (B : Type 0) : Type 0 where
  pub balances : List B
  pub user_count : Option ℕ

-- `B` is a balance and `M` a payment method. The objects of `currencies` are shared by all settings and stand
-- in the state of `App`; `fiatCurrencies` is never written and left out.
pub record Settings (B M : Type 0) : Type 0 where
  pub network : String
  pub user : Option User
  pub account : Option (List B)
  pub payment_methods : Option (List M)
  pub wallet_totals : WalletTotals B
  pub language : String
  pub default_fiat_currency_code : String

pub no_totals : {B : Type 0} → WalletTotals B
no_totals = record { balances = []; user_count = none }

unfoldable pub initial_state : {B M : Type 0} → Settings B M
unfolding no_totals
initial_state = record {
  network = "";
  user = none;
  account = none;
  payment_methods = none;
  wallet_totals = no_totals;
  language = "en";
  default_fiat_currency_code = "USD";
}

-- The rates of `initialState`.
unfoldable pub initial_currencies : Currencies
initial_currencies =
    (
      codes "XUS",
      (codes "USD", whole 1)
          ∷ (codes "EUR", record { num = 85; den = 100 })
          ∷ (codes "GBP", record { num = 8; den = 10 })
          ∷ (codes "CHF", whole 1)
          ∷ (codes "CAD", whole 1)
          ∷ (codes "AUD", whole 1)
          ∷ (codes "NZD", whole 1)
          ∷ (codes "JPY", whole 1)
          ∷ [],
    )
    ∷ []

-- What the `Promise.all` of a refresh resolves to; the totals are those of an administrator.
pub record Fetched (B M : Type 0) : Type 0 where
  pub display_name : String
  pub user : User
  pub balances : List B
  pub payment_methods : List M
  pub rates : List Rate
  pub total_balances : List B
  pub user_count : ℕ

-- A refresh awaits its replies, as an administrator or not, or its timer.
pub data Phase : Type 0 where
  fetching : Bool → Phase
  sleeping : Phase

-- `awaits_chain` while the first effect awaits the name of the chain.
pub record App (B M : Type 0) : Type 0 where
  pub settings : Settings B M
  pub currencies : Currencies
  pub session : Session.App
  pub phase : Phase
  pub awaits_chain : Bool

abbrev pub is_admin : Option User → Bool
is_admin none = false
is_admin (some u) = u.is_admin

-- The start of `refreshUser`: with a token it asks for all, and for the totals if the current settings have
-- an administrator; without one it sets its timer.
abbrev pub ask_as : {B M : Type 0} → Option String → Bool → App B M → App B M
ask_as none admin a = record a { phase = Phase.sleeping }
ask_as (some token) admin a = record a { phase = Phase.fetching admin }

unfoldable pub refresh_user : {B M : Type 0} → App B M → App B M
unfolding get_access_token
refresh_user a = ask_as (get_access_token a.session.storage) (is_admin a.settings.user) a

abbrev pub totals_of : {B M : Type 0} → Bool → Fetched B M → WalletTotals B
totals_of true f = record { balances = f.total_balances; user_count = some f.user_count }
totals_of false f = record { balances = []; user_count = none }

-- `setSettings({ ...settings, … })` of a refresh; its `settings` are those of the first rendering.
unfoldable pub refreshed_settings : {B M : Type 0} → Bool → Fetched B M → Settings B M
unfolding initial_state
refreshed_settings admin f = record initial_state {
  network = f.display_name;
  user = some f.user;
  account = some f.balances;
  language = f.user.selected_language;
  default_fiat_currency_code = f.user.selected_fiat_currency;
  payment_methods = some f.payment_methods;
  wallet_totals = totals_of admin f;
}

-- The rates are written into the shared objects one by one, and the settings only when none names an unknown
-- currency, for which the loop throws.
unfoldable pub store_refresh :
    {B M : Type 0} → Currencies × Bool → Bool → Fetched B M → App B M → App B M
unfolding refreshed_settings
store_refresh (currencies, true) admin f a = record a {
  settings = refreshed_settings admin f;
  currencies = currencies;
  phase = Phase.sleeping;
}
store_refresh (currencies, false) admin f a = record a {
  currencies = currencies;
  phase = Phase.sleeping;
}

-- The rest of `refreshUser`, which sets its timer whatever happened.
unfoldable pub finish_refresh : {B M : Type 0} → Phase → Result (Fetched B M) → App B M → App B M
unfolding store_refresh merge_rates Session.catch_refresh
finish_refresh (Phase.fetching admin) (ok f) a =
    store_refresh (merge_rates a.currencies f.rates) admin f a
finish_refresh (Phase.fetching admin) (err e) a = record a {
  session = Session.catch_refresh e a.session;
  phase = Phase.sleeping;
}
finish_refresh Phase.sleeping r a = a

unfoldable pub fire : {B M : Type 0} → Phase → App B M → App B M
unfolding refresh_user
fire Phase.sleeping a = refresh_user a
fire (Phase.fetching admin) a = a

-- The rest of `chainDisplayName`, with the settings of the first rendering too; an exception is unhandled.
unfoldable pub finish_chain : {B M : Type 0} → Bool → Result String → App B M → App B M
unfolding initial_state
finish_chain true (ok display_name) a = record a {
  settings = record initial_state { network = display_name };
  awaits_chain = false;
}
finish_chain true (err e) a = record a { awaits_chain = false }
finish_chain false r a = a

abbrev pub before_effects : {B M : Type 0} → LocalStorage → App B M
before_effects storage = record {
  settings = initial_state;
  currencies = initial_currencies;
  session = record { storage = storage; left = false };
  phase = Phase.sleeping;
  awaits_chain = true;
}

-- Both effects run at the mount.
unfoldable pub mount : {B M : Type 0} → LocalStorage → App B M
unfolding initial_state refresh_user
mount storage = refresh_user (before_effects storage)

-- A page may write the settings too, and sign in or out.
pub data Event (B M : Type 0) : Type 0 where
  refresh_settled : Result (Fetched B M) → Event B M
  chain_settled : Result String → Event B M
  timer : Event B M
  set_settings : Settings B M → Event B M
  set_storage : LocalStorage → Event B M

unfoldable pub step : {B M : Type 0} → App B M → Event B M → App B M
unfolding finish_refresh finish_chain fire
step a (refresh_settled r) = finish_refresh a.phase r a
step a (chain_settled r) = finish_chain a.awaits_chain r a
step a timer = fire a.phase a
step a (set_settings s) = record a { settings = s }
step a (set_storage storage) = record a {
  session = record { storage = storage; left = a.session.left };
}

unfoldable pub run : {B M : Type 0} → App B M → List (Event B M) → App B M
unfolding step
run a [] = a
run a (e ∷ es) = run (step a e) es
