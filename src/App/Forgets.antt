-- ===== src/App/Forgets.antt =====
-- Settings that are written over, in frontend/src/App.tsx.
use reference_wallet.Base.{
  ◌≡◌, ◌∙◌, refl, sym, ap, Bool, true, false, Option, none, some, List, ◌∷◌, [], ◌++◌, String, All,
}
use reference_wallet.Backend.Http.{Result, ok, err}
use reference_wallet.Rates.{Currencies, merge_rates}
use reference_wallet.App.{
  Settings, Fetched, Phase, App, initial_state, refreshed_settings, store_refresh, finish_refresh,
  fire, refresh_user, ask_as, Event, refresh_settled, chain_settled, timer, set_settings,
  set_storage, step, run,
}

-- Any event but the arrival of the name of the chain.
abbrev pub IsOther : {B M : Type 0} → Event B M → Type 0
IsOther (chain_settled r) = ⊥
IsOther _ = Unit

module _ {B M : Type 0} where
  run-append : (a : App B M) (es fs : List (Event B M)) → run a (es ++ fs) ≡ run (run a es) fs
  unfolding run
  run-append a [] fs = refl
  run-append a (e ∷ es) fs = run-append (step a e) es fs

  -- The name of the chain is awaited until it arrives.
  store_refresh-awaits :
      (cs : Currencies × Bool) (admin : Bool) (f : Fetched B M) (a : App B M)
      → (store_refresh cs admin f a).awaits_chain ≡ a.awaits_chain
  unfolding store_refresh
  store_refresh-awaits (cs, true) admin f a = refl
  store_refresh-awaits (cs, false) admin f a = refl

  finish_refresh-awaits :
      (p : Phase) (r : Result (Fetched B M)) (a : App B M)
      → (finish_refresh p r a).awaits_chain ≡ a.awaits_chain
  unfolding finish_refresh
  finish_refresh-awaits (Phase.fetching admin) (ok f) a =
      store_refresh-awaits (merge_rates a.currencies f.rates) admin f a
  finish_refresh-awaits (Phase.fetching admin) (err e) a = refl
  finish_refresh-awaits Phase.sleeping r a = refl

  ask_as-awaits :
      (token : Option String) (admin : Bool) (a : App B M)
      → (ask_as token admin a).awaits_chain ≡ a.awaits_chain
  ask_as-awaits none admin a = refl
  ask_as-awaits (some t) admin a = refl

  fire-awaits : (p : Phase) (a : App B M) → (fire p a).awaits_chain ≡ a.awaits_chain
  unfolding fire refresh_user
  fire-awaits Phase.sleeping a = ask_as-awaits _ _ a
  fire-awaits (Phase.fetching admin) a = refl

  step-awaits : (a : App B M) (e : Event B M) → IsOther e → (step a e).awaits_chain ≡ a.awaits_chain
  unfolding step
  step-awaits a (refresh_settled r) h = finish_refresh-awaits a.phase r a
  step-awaits a (chain_settled r) h = absurd h
  step-awaits a timer h = fire-awaits a.phase a
  step-awaits a (set_settings s) h = refl
  step-awaits a (set_storage storage) h = refl

  run-awaits :
      (a : App B M) (es : List (Event B M))
      → All IsOther es
      → (run a es).awaits_chain ≡ a.awaits_chain
  unfolding run
  run-awaits a [] h = refl
  run-awaits a (e ∷ es) (h, hs) = run-awaits (step a e) es hs ∙ step-awaits a e h

  -- What a refresh stores when it knows all currencies of the rates.
  stored :
      (cs : Currencies × Bool) (admin : Bool) (f : Fetched B M) (a : App B M)
      → cs.1 ≡ true
      → ((store_refresh cs admin f a).settings.user ≡ some f.user)
        × ((store_refresh cs admin f a).settings.account ≡ some f.balances)
        × ((store_refresh cs admin f a).currencies ≡ cs.0)
  unfolding store_refresh refreshed_settings
  stored (cs, true) admin f a known = (refl, refl, refl)
  stored (cs, false) admin f a known = absurd (cc)

  finish_refresh-fetching :
      (p : Phase) (admin : Bool) (f : Fetched B M) (a : App B M)
      → p ≡ Phase.fetching admin
      → finish_refresh p (ok f) a ≡ store_refresh (merge_rates a.currencies f.rates) admin f a
  unfolding finish_refresh
  finish_refresh-fetching p admin f a e = rw e refl

  chain-forgets :
      (a : App B M) (display_name : String)
      → a.awaits_chain ≡ true
      → let c = run a (chain_settled (ok display_name) ∷ []) in
        (c.settings ≡ record initial_state { network = display_name })
        × (c.currencies ≡ a.currencies)
  unfolding run
  chain-forgets a display_name waiting = rw waiting (refl, refl)

  -- A refresh that knows the currencies of all rates stores the user and the account and writes the rates.
  -- When the name of the chain arrives at any time after it, whatever happened in between, the settings are
  -- those of the start with that name: the user, the account and the payment methods are lost again. Only
  -- the rates stay, since they were written into objects that all settings share.
  pub late_chain_forgets_user :
      (a : App B M) (admin : Bool) (f : Fetched B M) (es : List (Event B M)) (display_name : String)
      → a.phase ≡ Phase.fetching admin
      → a.awaits_chain ≡ true
      → (merge_rates a.currencies f.rates).1 ≡ true
      → All IsOther es
      → let b = run a (refresh_settled (ok f) ∷ []) in
        let c = run a (refresh_settled (ok f) ∷ es ++ chain_settled (ok display_name) ∷ []) in
        (b.settings.user ≡ some f.user)
        × (b.settings.account ≡ some f.balances)
        × (b.currencies ≡ (merge_rates a.currencies f.rates).0)
        × (c.settings ≡ record initial_state { network = display_name })
        × (c.settings.user ≡ none)
        × (c.settings.account ≡ none)
        × (c.settings.payment_methods ≡ none)
        × (c.currencies ≡ (run b es).currencies)
  unfolding run step finish_refresh initial_state
  late_chain_forgets_user a admin f es display_name fetching waiting known others =
      let b = step a (refresh_settled (ok f)) in
      let (settings, currencies) =
        chain-forgets (run b es) display_name
          (run-awaits b es others ∙ step-awaits a (refresh_settled (ok f)) tt ∙ waiting) in
      let (user, account, rates) = stored (merge_rates a.currencies f.rates) admin f a known in
      let stores = finish_refresh-fetching a.phase admin f a fetching in
      rw (run-append b es (chain_settled (ok display_name) ∷ [])) (
        ap (λ (c : App B M). c.settings.user) stores ∙ user,
        ap (λ (c : App B M). c.settings.account) stores ∙ account,
        ap (λ (c : App B M). c.currencies) stores ∙ rates,
        settings,
        ap (λ (s : Settings B M). s.user) settings,
        ap (λ (s : Settings B M). s.account) settings,
        ap (λ (s : Settings B M). s.payment_methods) settings,
        currencies,
      )

  store_refresh-same :
      (cs : Currencies × Bool) (admin : Bool) (f : Fetched B M) (a : App B M) (s : Settings B M)
      → cs.1 ≡ true
      → store_refresh cs admin f (record a { settings = s }) ≡ store_refresh cs admin f a
  unfolding store_refresh
  store_refresh-same (cs, true) admin f a s known = refl
  store_refresh-same (cs, false) admin f a s known = absurd (cc)

  -- What a page writes into the settings while a refresh is awaited is lost when the refresh ends, if it
  -- knows all currencies: the state is then the same as if the page had written nothing.
  refresh_forgets_page :
      (a : App B M) (admin : Bool) (f : Fetched B M) (s : Settings B M)
      → a.phase ≡ Phase.fetching admin
      → (merge_rates a.currencies f.rates).1 ≡ true
      → run a (set_settings s ∷ refresh_settled (ok f) ∷ []) ≡ run a (refresh_settled (ok f) ∷ [])
  unfolding run step finish_refresh
  refresh_forgets_page a admin f s fetching known =
      finish_refresh-fetching a.phase admin f (record a { settings = s }) fetching
      ∙ store_refresh-same (merge_rates a.currencies f.rates) admin f a s known
      ∙ sym (finish_refresh-fetching a.phase admin f a fetching)
