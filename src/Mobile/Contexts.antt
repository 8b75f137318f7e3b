-- ===== src/Mobile/Contexts.antt =====
-- The providers of mobile/src/contexts/user.tsx, account.tsx and rates.tsx, each a loop that loads its
-- value again and again, the redirections of mobile/src/screens/Home.tsx and ConnectionError.tsx, and the
-- first screen of mobile/index.js.
pub mod Ends
mod Tests
use reference_wallet.Base.{
  ℕ, ◌+◌, ◌==◌, Bool, true, false, Option, none, some, List, [], ◌∷◌, String, if◌then◌else◌,
}
use reference_wallet.Backend.Http.{
  Exception, backend_error, username_already_exists, unexpected, Result, ok, err, LocalStorage,
  get_access_token, remove_access_token,
}
use reference_wallet.Rates.{Rate, Currencies, merge_rates}

-- A loop reads the token, awaits the backend, awaits its timer, or is over.
pub data Phase : Type 0 where
  reading fetching sleeping over : Phase

-- The screens that `setStackRoot` puts in the place of all others.
pub data Root : Type 0 where
  home sign_in connection_error verify : Root

-- A provider with its value, the requests that it has made, the storage, and the calls of
-- `setStackRoot`, latest first.
pub record Provider (S : Type 0) : Type 0 where
  pub value : S
  pub phase : Phase
  pub requests : ℕ
  pub storage : LocalStorage
  pub roots : List Root

-- At its mount a provider starts to load.
unfoldable pub mount : {S : Type 0} → S → LocalStorage → Provider S
mount value storage = record {
  value = value;
  phase = Phase.reading;
  requests = 0;
  storage = storage;
  roots = [];
}

-- The load functions up to their request: without a token they return, and set no timer.
abbrev pub with_token : {S : Type 0} → Option String → Provider S → Provider S
with_token none p = record p { phase = Phase.over }
with_token (some token) p = record p { phase = Phase.fetching; requests = p.requests + 1 }

unfoldable pub read_token : {S : Type 0} → Phase → Provider S → Provider S
unfolding get_access_token
read_token Phase.reading p = with_token (get_access_token p.storage) p
read_token _ p = p

-- The end of a `try`: the timer is set, unless an exception came before.
abbrev pub set_timer : {S : Type 0} → S × Bool → Provider S → Provider S
set_timer (value, true) p = record p { value = value; phase = Phase.sleeping }
set_timer (value, false) p = record p { value = value; phase = Phase.over }

-- The timer fires.
unfoldable pub tick : {S : Type 0} → Phase → Provider S → Provider S
tick Phase.sleeping p = record p { phase = Phase.reading }
tick _ p = p

-- The clean-up: a timer that runs is dropped, and a request that is awaited is not.
unfoldable pub unmount : {S : Type 0} → Phase → Provider S → Provider S
unmount Phase.sleeping p = record p { phase = Phase.over }
unmount _ p = p

pub data Event (V : Type 0) : Type 0 where
  token_read : Event V
  settled : Result V → Event V
  timer : Event V
  left : Event V

-- `receive` is what a provider makes of a reply, and whether that throws no exception; `catch` is the
-- rest of its `catch`.
module _ {S V : Type 0} (receive : V → S → S × Bool)
    (catch : Exception → Provider S → Provider S) where
  unfoldable pub settle : Phase → Result V → Provider S → Provider S
  settle Phase.fetching (ok v) p = set_timer (receive v p.value) p
  settle Phase.fetching (err e) p = catch e (record p { phase = Phase.over })
  settle _ r p = p

  unfoldable pub step : Provider S → Event V → Provider S
  unfolding read_token settle tick unmount
  step p token_read = read_token p.phase p
  step p (settled r) = settle p.phase r p
  step p timer = tick p.phase p
  step p left = unmount p.phase p

  unfoldable pub run : Provider S → List (Event V) → Provider S
  unfolding step
  run p [] = p
  run p (e ∷ es) = run (step p e) es

abbrev pub keep : {V : Type 0} → V → Option V → Option V × Bool
keep v old = (some v, true)

abbrev pub unauthorized : ℕ
unauthorized = 401

-- The `catch` of `loadUser`.
unfoldable pub catch_user : {S : Type 0} → Exception → Provider S → Provider S
unfolding remove_access_token
catch_user (backend_error message status) p =
    if status == unauthorized
    then record p { storage = remove_access_token p.storage; roots = Root.sign_in ∷ p.roots }
    else record p { roots = Root.connection_error ∷ p.roots }
catch_user _ p = p

-- The other two write to the console.
abbrev pub catch_quietly : {S : Type 0} → Exception → Provider S → Provider S
catch_quietly e p = p

unfoldable pub user_step : {U : Type 0} → Provider (Option U) → Event U → Provider (Option U)
unfolding step catch_user
user_step = step keep catch_user

unfoldable pub account_step : {A : Type 0} → Provider (Option A) → Event A → Provider (Option A)
unfolding step
account_step = step keep catch_quietly

-- The loop of `loadRates` writes into the objects that all providers share.
abbrev pub merge_into : List Rate → Currencies → Currencies × Bool
merge_into rates objects = merge_rates objects rates

unfoldable pub rates_step : Provider Currencies → Event (List Rate) → Provider Currencies
unfolding step merge_rates
rates_step = step merge_into catch_quietly

-- `RegistrationStatus` of mobile/src/interfaces/user.ts.
pub data RegistrationStatus : Type 0 where
  registered pending verified approved rejected : RegistrationStatus

-- The effect of `Home` when the user changes.
unfoldable pub redirect_to_verify : Option RegistrationStatus → List Root → List Root
redirect_to_verify (some RegistrationStatus.registered) roots = Root.verify ∷ roots
redirect_to_verify _ roots = roots

-- `tryAgain` of `ConnectionError`.
unfoldable pub try_again : List Root → List Root
try_again roots = Root.home ∷ roots

-- The screen at the launch.
unfoldable pub launch_root : LocalStorage → Root
unfolding get_access_token
launch_root storage = elim (get_access_token storage) [ none ↦ Root.sign_in | some t ↦ Root.home ]
