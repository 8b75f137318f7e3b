-- ===== src/Settings.antt =====
-- The page frontend/src/pages/Settings.tsx: its stages, its calls and the sign-out. `M` is a payment
-- method as the backend lists it. The change of the language of i18next is taken to succeed.
pub mod Forms
pub mod Groups
pub mod LastFour
pub mod Runs
mod Tests
use reference_wallet.Base.{
  ℕ, suc, ◌-◌, ◌==◌, Bool, Option, none, some, List, [], ◌∷◌, String, if◌then◌else◌, get_elem?,
  erase_idx,
}
use Forms.{NewPaymentMethod}
use reference_wallet.Backend.Http.{LocalStorage, remove_access_token}
use reference_wallet.Transfer.Machine.{Outcome, ok, backend_error, other_error}

pub data FormStages : Type 0 where
  edit sending fail success redirect : FormStages

-- The calls that are awaited. A fetch knows the stage that follows it, if one does.
pub data Pending : Type 0 where
  saving : String → String → Pending
  storing : NewPaymentMethod → Pending
  fetching : Option FormStages → Pending
  signing_out : Pending

-- `language` and `default_fiat_currency_code` are those of the application's settings, and
-- `is_signed_in` whether these have a user.
pub record Settings (M : Type 0) : Type 0 where
  pub form_stage : FormStages
  pub error_message : Option String
  pub payment_methods : List M
  pub language : String
  pub default_fiat_currency_code : String
  pub is_signed_in : Bool
  pub storage : LocalStorage
  pub pending : List Pending
  pub timers : ℕ

-- How a call ends: with a list, with nothing, or with an exception.
pub data Ending (M : Type 0) : Type 0 where
  listed : List M → Ending M
  done : Ending M
  refused : String → Ending M
  broken : Ending M

-- A rendering in the stage "success" starts a timer.
unfoldable pub render : {M : Type 0} → FormStages → Settings M → Settings M
render FormStages.success s = record s { timers = suc s.timers }
render _ s = s

abbrev pub set_stage : {M : Type 0} → FormStages → Settings M → Settings M
set_stage stage s = render stage (record s { form_stage = stage })

abbrev pub await_call : {M : Type 0} → Pending → Settings M → Settings M
await_call p s = record s { pending = p ∷ s.pending }

unfoldable pub fetch_payment_methods : {M : Type 0} → Option FormStages → Settings M → Settings M
fetch_payment_methods next s = await_call (Pending.fetching next) s

-- `savePreferences` and `storePaymentMethod` up to their first `await`.
unfoldable pub save_preferences : {M : Type 0} → String → String → Settings M → Settings M
unfolding render
save_preferences language code s =
    await_call (Pending.saving language code) (set_stage FormStages.sending s)

unfoldable pub store_payment_method : {M : Type 0} → NewPaymentMethod → Settings M → Settings M
unfolding render
store_payment_method method s = await_call (Pending.storing method) (set_stage FormStages.sending s)

unfoldable pub logout : {M : Type 0} → Settings M → Settings M
logout s = await_call Pending.signing_out s

abbrev pub show_error : {M : Type 0} → Ending M → Settings M → Settings M
show_error (refused message) s = record s { error_message = some message }
show_error _ s = record s { error_message = some "Internal Error" }

abbrev pub fail_with : {M : Type 0} → Ending M → Settings M → Settings M
fail_with e s = show_error e (set_stage FormStages.fail s)

unfoldable pub finish_save : {M : Type 0} → String → String → Ending M → Settings M → Settings M
unfolding fetch_payment_methods render
finish_save language code done s =
    fetch_payment_methods (some FormStages.redirect)
      (record s { language = language; default_fiat_currency_code = code })
finish_save language code e s = fail_with e s

unfoldable pub finish_store : {M : Type 0} → Ending M → Settings M → Settings M
unfolding fetch_payment_methods render
finish_store done s = fetch_payment_methods (some FormStages.success) s
finish_store e s = fail_with e s

abbrev pub go_on : {M : Type 0} → Option FormStages → Settings M → Settings M
go_on none s = s
go_on (some stage) s = set_stage stage s

-- `fetchPaymentMethods` catches its exceptions, and what awaits it goes on.
unfoldable pub finish_fetch : {M : Type 0} → Option FormStages → Ending M → Settings M → Settings M
unfolding render
finish_fetch next (listed methods) s = go_on next (record s { payment_methods = methods })
finish_fetch next e s = go_on next (show_error e s)

-- An exception of `signoutUser` is dropped.
unfoldable pub finish_logout : {M : Type 0} → Settings M → Settings M
unfolding remove_access_token
finish_logout s = record s { storage = remove_access_token s.storage; is_signed_in = Bool.false }

unfoldable pub settle : {M : Type 0} → Pending → Ending M → Settings M → Settings M
unfolding finish_save finish_store finish_fetch finish_logout
settle (Pending.saving language code) e s = finish_save language code e s
settle (Pending.storing method) e s = finish_store e s
settle (Pending.fetching next) e s = finish_fetch next e s
settle Pending.signing_out e s = finish_logout s

unfoldable pub settle_at : {M : Type 0} → Option Pending → ℕ → Ending M → Settings M → Settings M
unfolding settle
settle_at none i e s = s
settle_at (some p) i e s = settle p e (record s { pending = erase_idx s.pending i })

-- A timer fires, whatever the stage is.
unfoldable pub fire : {M : Type 0} → Settings M → Settings M
fire s =
    if s.timers == 0 then s else record s { timers = s.timers - 1; form_stage = FormStages.edit }

pub data Event (M : Type 0) : Type 0 where
  save : String → String → Event M
  store : NewPaymentMethod → Event M
  sign_out : Event M
  settled : ℕ → Ending M → Event M
  timer : Event M

unfoldable pub step : {M : Type 0} → Settings M → Event M → Settings M
unfolding save_preferences store_payment_method logout settle_at fire
step s (save language code) = save_preferences language code s
step s (store method) = store_payment_method method s
step s sign_out = logout s
step s (settled i e) = settle_at (get_elem? s.pending i) i e s
step s timer = fire s
