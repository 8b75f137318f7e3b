-- ===== src/Mobile/Settings.antt =====
-- The screen mobile/src/screens/Settings.tsx with its forms: components/PreferencesForm.tsx and the screens
-- that add a payment method, whose handler is that of this screen. The change of the language of i18next is
-- taken to succeed; the user is one that the provider has loaded.
pub mod Beside
mod Tests
use text.Mathlib.Text.{◌==◌ as str_eq}
use reference_wallet.Base.{
  ℕ, Bool, true, false, not, Option, none, some, List, [], ◌∷◌, String, if◌then◌else◌, get_elem?,
  erase_idx,
}
use reference_wallet.Backend.Http.{LocalStorage, remove_access_token}
use reference_wallet.Receive.{SubmitStatus}
use reference_wallet.Settings.Forms.{NewPaymentMethod}
use reference_wallet.Transfer.Machine.{Outcome, ok, backend_error, other_error}
use reference_wallet.Mobile.Contexts.{Root}

-- The calls that are awaited.
pub data Pending : Type 0 where
  storing : NewPaymentMethod → Pending
  saving : String → String → Pending

-- `selected_language` is the user's, `language` that of i18next; `selected_fiat` and `chosen_language` are
-- what the form of the preferences shows. `roots` holds the screens that `setStackRoot` and `popToRoot`
-- went to, latest first; `stored` the methods that the backend has stored, and `saved` the preferences.
pub record Settings : Type 0 where
  pub submit_status : SubmitStatus
  pub error_message : Option String
  pub selected_language : String
  pub language : String
  pub chosen_fiat_currency : String
  pub chosen_language : String
  pub storage : LocalStorage
  pub pending : List Pending
  pub roots : List Root
  pub stored : List NewPaymentMethod
  pub saved : List (String × String)

-- The form of the preferences starts with those of the user.
unfoldable pub mount : String → String → String → LocalStorage → Settings
mount fiat_currency selected_language language storage = record {
  submit_status = SubmitStatus.edit;
  error_message = none;
  selected_language = selected_language;
  language = language;
  chosen_fiat_currency = fiat_currency;
  chosen_language = selected_language;
  storage = storage;
  pending = [];
  roots = [];
  stored = [];
  saved = [];
}

-- `storePaymentMethod` and `savePreferences` up to their request: the message of an earlier failure stays.
abbrev pub send : Pending → Settings → Settings
send p s = record s { submit_status = SubmitStatus.sending; pending = p ∷ s.pending }

unfoldable pub store_payment_method : NewPaymentMethod → Settings → Settings
store_payment_method method s = send (Pending.storing method) s

unfoldable pub save_preferences : Settings → Settings
save_preferences s = send (Pending.saving s.chosen_language s.chosen_fiat_currency) s

abbrev pub fail : String → Settings → Settings
fail message s = record s { submit_status = SubmitStatus.fail; error_message = some message }

abbrev pub change_language : Bool → String → Settings → Settings
change_language true language s = s
change_language false language s = record s { language = language }

-- What follows the `await`.
unfoldable pub finish : Pending → Outcome (Unit {0}) → Settings → Settings
finish (Pending.storing method) (ok _) s = record s {
  submit_status = SubmitStatus.success;
  stored = method ∷ s.stored;
}
finish (Pending.saving language code) (ok _) s =
    change_language (str_eq language s.selected_language) language
      (record s { roots = Root.home ∷ s.roots; saved = (language, code) ∷ s.saved })
finish _ (backend_error e) s = fail e s
finish _ other_error s = fail "Internal Error" s

unfoldable pub settle_at : Option Pending → ℕ → Outcome (Unit {0}) → Settings → Settings
unfolding finish
settle_at none i o s = s
settle_at (some p) i o s = finish p o (record s { pending = erase_idx s.pending i })

unfoldable pub logout : Settings → Settings
unfolding remove_access_token
logout s = record s { storage = remove_access_token s.storage; roots = Root.sign_in ∷ s.roots }

pub data Event : Type 0 where
  choose_fiat_currency choose_language : String → Event
  save : Event
  add : NewPaymentMethod → Event
  sign_out : Event
  settled : ℕ → Outcome (Unit {0}) → Event

unfoldable pub step : Settings → Event → Settings
unfolding store_payment_method save_preferences logout settle_at
step s (choose_fiat_currency code) = record s { chosen_fiat_currency = code }
step s (choose_language language) = record s { chosen_language = language }
step s save = save_preferences s
step s (add method) = store_payment_method method s
step s sign_out = logout s
step s (settled i o) = settle_at (get_elem? s.pending i) i o s

unfoldable pub run : Settings → List Event → Settings
unfolding step
run s [] = s
run s (e ∷ es) = run (step s e) es
