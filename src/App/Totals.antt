-- ===== src/App/Totals.antt =====
-- When the settings have the totals of the wallet, in runs of frontend/src/App.tsx.
use reference_wallet.Base.{
  ◌≡◌, refl, Bool, true, false, Option, none, some, List, [], ◌∷◌, String, All,
}
use reference_wallet.Backend.Http.{Result, ok, err, LocalStorage, get_access_token}
use reference_wallet.Rates.{Currencies, merge_rates}
use reference_wallet.App.{
  Settings, Fetched, Phase, App, is_admin, no_totals, initial_state, ask_as, store_refresh,
  refresh_user, refreshed_settings, finish_refresh, fire, finish_chain, mount, before_effects,
  Event, refresh_settled, chain_settled, timer, set_settings, set_storage, step, run,
}

-- What pages and replies bring that know no administrator.
abbrev pub IsPlain : {B M : Type 0} → Settings B M → Type 0
IsPlain s = (is_admin s.user ≡ false) × (s.wallet_totals ≡ no_totals)

abbrev pub BringsNoAdmin : {B M : Type 0} → Event B M → Type 0
BringsNoAdmin (refresh_settled (ok f)) = f.user.is_admin ≡ false
BringsNoAdmin (set_settings s) = IsPlain s
BringsNoAdmin _ = Unit

abbrev pub asks_as_admin : Phase → Bool
asks_as_admin (Phase.fetching admin) = admin
asks_as_admin Phase.sleeping = false

record Inv {B M : Type 0} (a : App B M) : Type 0 where
  plain : IsPlain a.settings
  quiet : asks_as_admin a.phase ≡ false

module _ {B M : Type 0} where
  asked-Inv :
      (token : Option String) (a : App B M)
      → IsPlain a.settings
      → Inv (ask_as token (is_admin a.settings.user) a)
  asked-Inv none a h = record { plain = h; quiet = refl }
  asked-Inv (some t) a h = record { plain = h; quiet = h.0 }

  refresh_user-Inv : (a : App B M) → IsPlain a.settings → Inv (refresh_user a)
  unfolding refresh_user
  refresh_user-Inv a h = asked-Inv (get_access_token a.session.storage) a h

  mount-Inv : (storage : LocalStorage) → Inv (mount {B = B} {M = M} storage)
  unfolding mount initial_state
  mount-Inv storage = refresh_user-Inv (before_effects storage) (refl, refl)

  store_refresh-Inv :
      (cs : Currencies × Bool) (f : Fetched B M) (a : App B M)
      → f.user.is_admin ≡ false
      → IsPlain a.settings
      → Inv (store_refresh cs false f a)
  unfolding store_refresh refreshed_settings no_totals
  store_refresh-Inv (cs, true) f a free h = record { plain = (free, refl); quiet = refl }
  store_refresh-Inv (cs, false) f a free h = record { plain = h; quiet = refl }

  finish_refresh-Inv :
      (p : Phase) (r : Result (Fetched B M)) (a : App B M)
      → BringsNoAdmin {B = B} {M = M} (refresh_settled r)
      → asks_as_admin p ≡ false
      → Inv a
      → Inv (finish_refresh p r a)
  unfolding finish_refresh
  finish_refresh-Inv (Phase.fetching true) (ok f) a free q h = absurd (cc)
  finish_refresh-Inv (Phase.fetching false) (ok f) a free q h =
      store_refresh-Inv (merge_rates a.currencies f.rates) f a free h.plain
  finish_refresh-Inv (Phase.fetching admin) (err e) a free q h = record {
    plain = h.plain;
    quiet = refl;
  }
  finish_refresh-Inv Phase.sleeping r a free q h = h

  finish_chain-Inv : (b : Bool) (r : Result String) (a : App B M) → Inv a → Inv (finish_chain b r a)
  unfolding finish_chain initial_state
  finish_chain-Inv true (ok name) a h = record { plain = (refl, refl); quiet = h.quiet }
  finish_chain-Inv true (err e) a h = record { plain = h.plain; quiet = h.quiet }
  finish_chain-Inv false r a h = h

  fire-Inv : (p : Phase) (a : App B M) → Inv a → Inv (fire p a)
  unfolding fire
  fire-Inv Phase.sleeping a h = refresh_user-Inv a h.plain
  fire-Inv (Phase.fetching admin) a h = h

  step-Inv : (a : App B M) (e : Event B M) → BringsNoAdmin e → Inv a → Inv (step a e)
  unfolding step
  step-Inv a (refresh_settled (ok f)) free h = finish_refresh-Inv a.phase (ok f) a free h.quiet h
  step-Inv a (refresh_settled (err e)) free h = finish_refresh-Inv a.phase (err e) a tt h.quiet h
  step-Inv a (chain_settled r) free h = finish_chain-Inv a.awaits_chain r a h
  step-Inv a timer free h = fire-Inv a.phase a h
  step-Inv a (set_settings s) free h = record { plain = free; quiet = h.quiet }
  step-Inv a (set_storage storage) free h = record { plain = h.plain; quiet = h.quiet }

  run-Inv : (a : App B M) (es : List (Event B M)) → All BringsNoAdmin es → Inv a → Inv (run a es)
  unfolding run
  run-Inv a [] free h = h
  run-Inv a (e ∷ es) (f, free) h = run-Inv (step a e) es free (step-Inv a e f h)

  -- In a run from the mount in which no reply of the backend has an administrator, and no page writes one
  -- or the totals of the wallet into the settings, the totals are never asked for, and the settings never
  -- have any.
  pub run-hides_totals :
      (storage : LocalStorage) (es : List (Event B M))
      → All BringsNoAdmin es
      → let a = run (mount storage) es in
        (asks_as_admin a.phase ≡ false)
        × (is_admin a.settings.user ≡ false)
        × (a.settings.wallet_totals ≡ no_totals)
  run-hides_totals storage es free =
      let h = run-Inv (mount storage) es free (mount-Inv storage) in (h.quiet, h.plain.0, h.plain.1)
