-- ===== src/Transactions.antt =====
-- What the clients show of a transaction: frontend/src/components/TransactionsList.tsx,
-- TransactionModal.tsx and ExplorerLink.tsx, and in Mobile/Transactions.antt the screens. The texts of the
-- locale are values of a data type, and a rate that is missing is `none`, which the price shows as NaN.
pub mod Agree
mod Explorer
mod Tests
use mathlib.Core.Option
use reference_wallet.Base.{
  ℕ, Bool, true, false, not, Option, none, some, List, [], ◌∷◌, ◌++◌, if◌then◌else◌, ◌>>=◌, codes,
  ◌==◌,
}
use reference_wallet.Amount.{
  whole, diem_amount_to_float, diem_amount_to_human_friendly, fiat_to_diem_human_friendly,
}
use reference_wallet.Amount.Text.{Fraction}
use reference_wallet.Balances.{times}
use reference_wallet.Options.{lookup}
use reference_wallet.Send.Intents.{text_eq}

-- frontend/src/interfaces/transaction.ts and blockchain.ts.
pub data TransactionDirection : Type 0 where
  received sent : TransactionDirection

pub data TransactionStatus : Type 0 where
  completed pending canceled locked : TransactionStatus

pub record VaspAccount : Type 0 where
  pub user_id : List ℕ
  pub full_addr : List ℕ

pub record Transaction : Type 0 where
  pub direction : TransactionDirection
  pub status : TransactionStatus
  pub currency : List ℕ
  pub source : VaspAccount
  pub destination : VaspAccount
  pub amount : ℕ
  pub version : Option ℕ
  pub is_internal : Bool

-- What `settings.currencies` and `settings.fiatCurrencies` hold.
pub record Currency : Type 0 where
  pub sign : List ℕ
  pub rates : List (List ℕ × Fraction)

pub record FiatCurrency : Type 0 where
  pub symbol : List ℕ
  pub fiat_sign : List ℕ

pub record Settings : Type 0 where
  pub currencies : List (List ℕ × Currency)
  pub fiat_currencies : List (List ℕ × FiatCurrency)
  pub default_fiat_currency_code : List ℕ

-- The colors of a status; the modal has none for "locked".
pub data Color : Type 0 where
  success warning danger primary undefined : Color

abbrev pub list_color : TransactionStatus → Color
list_color TransactionStatus.completed = Color.success
list_color TransactionStatus.pending = Color.warning
list_color TransactionStatus.canceled = Color.danger
list_color TransactionStatus.locked = Color.primary

abbrev pub modal_color : TransactionStatus → Color
modal_color TransactionStatus.locked = Color.undefined
modal_color status = list_color status

-- What stands before the address: the direction with "from" or "to", or the title of a locked payment.
pub data Title : Type 0 where
  received_from sent_to locked_status : Title

-- `getStatusTitle` with what the row writes behind it.
abbrev pub title_of : TransactionDirection → TransactionStatus → Title
title_of TransactionDirection.received status = Title.received_from
title_of TransactionDirection.sent TransactionStatus.locked = Title.locked_status
title_of TransactionDirection.sent status = Title.sent_to

abbrev pub other_account : TransactionDirection → Transaction → VaspAccount
other_account TransactionDirection.received t = t.source
other_account TransactionDirection.sent t = t.destination

-- `- ` before what was sent.
abbrev pub amount_sign : TransactionDirection → List ℕ
amount_sign TransactionDirection.received = []
amount_sign TransactionDirection.sent = codes "- "

unfoldable pub amount_text : ℕ → Currency → List ℕ
unfolding diem_amount_to_human_friendly
amount_text amount c = diem_amount_to_human_friendly (whole amount) true ++ b' ' ∷ c.sign

-- The number NaN is shown by its name.
abbrev pub fiat_text : Option Fraction → List ℕ
unfolding fiat_to_diem_human_friendly
fiat_text none = codes "NaN"
fiat_text (some price) = fiat_to_diem_human_friendly price true

unfoldable pub price_text : ℕ → FiatCurrency → Option Fraction → List ℕ
unfolding fiat_text diem_amount_to_float
price_text amount f rate =
    f.fiat_sign
    ++ fiat_text (Option.map (times (diem_amount_to_float (whole amount))) rate)
    ++ b' ' ∷ f.symbol

pub record Row : Type 0 where
  pub title : Title
  pub address : List ℕ
  pub amount_shown : List ℕ
  pub color : Color
  pub price_shown : List ℕ

-- A row; a currency that the settings lack throws.
unfoldable pub show_row : Settings → Transaction → Option Row
unfolding lookup text_eq amount_text price_text
show_row s t = lookup text_eq t.currency s.currencies >>= λ (c : Currency).
    Option.map
      (λ (f : FiatCurrency). record {
        title = title_of t.direction t.status;
        address = (other_account t.direction t).full_addr;
        amount_shown = amount_sign t.direction ++ amount_text t.amount c;
        color = list_color t.status;
        price_shown = price_text t.amount f (lookup text_eq s.default_fiat_currency_code c.rates);
      })
      (lookup text_eq s.default_fiat_currency_code s.fiat_currencies)

-- What the modal writes for the id of the transaction.
pub data TxId : Type 0 where
  internal not_available : TxId
  explorer_link : ℕ → TxId

abbrev pub tx_id : Bool → Option ℕ → TxId
tx_id true version = TxId.internal
tx_id false none = TxId.not_available
tx_id false (some version) = if version == 0 then TxId.not_available else TxId.explorer_link version

-- `currency.rates[…] || 0`.
abbrev pub or_zero : Option Fraction → Option Fraction
or_zero none = some (whole 0)
or_zero (some rate) = some rate

pub record ModalView : Type 0 where
  pub direction : TransactionDirection
  pub account : VaspAccount
  pub amount_shown : List ℕ
  pub color : Color
  pub price_shown : List ℕ
  pub id_shown : TxId

unfoldable pub show_modal : Settings → Transaction → Option ModalView
unfolding lookup text_eq amount_text price_text
show_modal s t = lookup text_eq t.currency s.currencies >>= λ (c : Currency).
    Option.map
      (λ (f : FiatCurrency). record {
        direction = t.direction;
        account = other_account t.direction t;
        amount_shown = amount_text t.amount c;
        color = modal_color t.status;
        price_shown =
            price_text t.amount f (or_zero (lookup text_eq s.default_fiat_currency_code c.rates));
        id_shown = tx_id t.is_internal t.version;
      })
      (lookup text_eq s.default_fiat_currency_code s.fiat_currencies)
