-- ===== src/Transactions/Tests.antt =====
-- A transaction as the web client shows it.
use reference_wallet.Base.{◌≡◌, refl, false, some, [], ◌∷◌, codes}
use reference_wallet.Amount.{whole}
use reference_wallet.Transactions.{
  TransactionDirection, TransactionStatus, Transaction, Settings, Color, Title, TxId, show_row,
  show_modal,
}

abbrev transaction : Transaction
transaction = record {
  direction = TransactionDirection.sent;
  status = TransactionStatus.locked;
  currency = codes "XUS";
  source = record { user_id = codes "1"; full_addr = codes "tdm1a" };
  destination = record { user_id = codes "2"; full_addr = codes "tdm1b" };
  amount = 2500000;
  version = some 12;
  is_internal = false;
}

-- A rate of 2, in millionths.
abbrev settings : Settings
settings = record {
  currencies =
      (codes "XUS", record { sign = codes "XUS"; rates = (codes "USD", whole 2000000) ∷ [] }) ∷ [];
  fiat_currencies = (codes "USD", record { symbol = codes "USD"; fiat_sign = codes "$" }) ∷ [];
  default_fiat_currency_code = codes "USD";
}

row_test :
    show_row settings transaction
    ≡ some (record {
      title = Title.locked_status;
      address = codes "tdm1b";
      amount_shown = codes "- 2.5 XUS";
      color = Color.primary;
      price_shown = codes "$5.00 USD";
    })
unfolding show_row
row_test = refl

-- A modal has no color for a locked payment.
modal_test :
    show_modal settings transaction
    ≡ some (record {
      direction = TransactionDirection.sent;
      account = transaction.destination;
      amount_shown = codes "2.5 XUS";
      color = Color.undefined;
      price_shown = codes "$5.00 USD";
      id_shown = TxId.explorer_link 12;
    })
unfolding show_modal
modal_test = refl
