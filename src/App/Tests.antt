-- ===== src/App/Tests.antt =====
-- Runs of frontend/src/App.tsx, and its routes.
use text.Mathlib.Text.{◌==◌ as str_eq}
use reference_wallet.Base.{ℕ, ◌≡◌, refl, true, false, none, some, [], ◌∷◌, codes}
use reference_wallet.Backend.Http.{LocalStorage, ok, err, unexpected, get_access_token}
use reference_wallet.Session.{is_some}
use reference_wallet.Amount.{whole}
use reference_wallet.Options.{lookup}
use reference_wallet.Rates.{merge_rates, rate_of}
use reference_wallet.App.{
  User, Fetched, App, is_admin, no_totals, initial_state, initial_currencies, mount,
  refresh_settled, chain_settled, timer, run,
}
use reference_wallet.App.Forgets.{late_chain_forgets_user}
use reference_wallet.App.Totals.{asks_as_admin, run-hides_totals}
use reference_wallet.App.Routes.{Page, follow}
use reference_wallet.App.Routes.Arrives.{is_for_users, FitsPaths, follow-arrives}

abbrev stored : LocalStorage
stored = record { token = some "t" }

abbrev empty : LocalStorage
empty = record { token = none }

abbrev ann : User
ann = record {
  username = "ann";
  is_admin = true;
  selected_language = "en";
  selected_fiat_currency = "EUR";
}

abbrev fetched : Fetched ℕ ℕ
fetched = record {
  display_name = "testnet";
  user = ann;
  balances = 1 ∷ [];
  payment_methods = [];
  rates = record { currency_pair = codes "XUS_EUR"; price = whole 850000 } ∷ [];
  total_balances = 5 ∷ [];
  user_count = 9;
}

abbrev started : App ℕ ℕ
started = mount stored

-- The totals come with the second refresh.
first_totals :
    (run started (refresh_settled (ok fetched) ∷ [])).settings.wallet_totals.user_count ≡ none
unfolding run mount get_access_token initial_currencies
first_totals = refl

second_totals :
    (run started (
      refresh_settled (ok fetched)
      ∷ timer
      ∷ refresh_settled (ok fetched)
      ∷ [])).settings.wallet_totals.user_count
    ≡ some 9
unfolding run mount get_access_token initial_currencies
second_totals = refl

-- The rate of the refresh stays when the name of the chain arrives after it.
kept_rate :
    let es = refresh_settled (ok fetched) ∷ timer ∷ chain_settled (ok "testnet") ∷ [] in
    rate_of (codes "XUS") (codes "EUR") (run started es).currencies ≡ some (whole 850000)
unfolding run mount get_access_token initial_currencies lookup
kept_rate = refl

known_rates : (merge_rates started.currencies fetched.rates).1 ≡ true
unfolding mount get_access_token initial_currencies merge_rates
known_rates = refl

late_chain_forgets_user_example :
    let b = run started (refresh_settled (ok fetched) ∷ []) in
    let c =
      run started (refresh_settled (ok fetched) ∷ timer ∷ chain_settled (ok "testnet") ∷ []) in
    (b.settings.user ≡ some ann)
    × (b.settings.account ≡ some (1 ∷ []))
    × (b.currencies ≡ (merge_rates started.currencies fetched.rates).0)
    × (c.settings ≡ record initial_state { network = "testnet" })
    × (c.settings.user ≡ none)
    × (c.settings.account ≡ none)
    × (c.settings.payment_methods ≡ none)
    × (c.currencies ≡ (run b (timer ∷ [])).currencies)
unfolding mount get_access_token
late_chain_forgets_user_example =
    late_chain_forgets_user started false fetched (timer ∷ []) "testnet" refl refl known_rates
      (tt, tt)

run-hides_totals_example :
    let a = run (mount {B = ℕ} {M = ℕ} stored) (
      refresh_settled (ok (record fetched { user = record ann { is_admin = false } }))
      ∷ timer
      ∷ refresh_settled (err unexpected)
      ∷ []) in
    (asks_as_admin a.phase ≡ false)
    × (is_admin a.settings.user ≡ false)
    × (a.settings.wallet_totals ≡ no_totals)
run-hides_totals_example =
    run-hides_totals stored
      (refresh_settled (ok (record fetched { user = record ann { is_admin = false } }))
        ∷ timer
        ∷ refresh_settled (err unexpected)
        ∷ [])
      (refl, (tt, (tt, tt)))

equal_fits : FitsPaths str_eq
equal_fits = record {
  root = refl;
  login = refl;
  others = (refl, (refl, (refl, (refl, (refl, (refl, (refl, (refl, (refl, tt)))))))));
}

follow-arrives_example :
    (p : Page) × (follow str_eq 3 none empty (record { path = "/nowhere"; search = "" }) ≡ some p)
    × (is_for_users p ≡ is_some (get_access_token empty))
follow-arrives_example =
    follow-arrives str_eq equal_fits none empty (record { path = "/nowhere"; search = "" })
