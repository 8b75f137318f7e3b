-- ===== src/Mobile/Transactions/Tests.antt =====
-- A transaction as the mobile client shows it.
use reference_wallet.Base.{◌≡◌, refl, true, none, some, [], ◌∷◌, codes}
use reference_wallet.Amount.{whole}
use reference_wallet.Transactions.{TransactionDirection, TransactionStatus, Transaction, Color}
use reference_wallet.Mobile.Transactions.{Line, show_row, shorten_diem_address}

abbrev transaction : Transaction
transaction = record {
  direction = TransactionDirection.received;
  status = TransactionStatus.canceled;
  currency = codes "XUS";
  source = record { user_id = codes "1"; full_addr = codes "tdm1abcdefghijklmn" };
  destination = record { user_id = codes "2"; full_addr = codes "tdm1b" };
  amount = 2500000;
  version = none;
  is_internal = true;
}

row_test :
    show_row ((codes "XUS", (codes "USD", whole 2000000) ∷ []) ∷ []) (codes "USD") transaction
    ≡ some (record {
      line = Line.internal_received;
      address = codes "tdm1ab....ijklmn";
      amount_shown = codes "+ 2.5 ≋XUS";
      color = Color.danger;
      price_shown = codes "$5.00 USD";
    })
unfolding show_row
row_test = refl

-- A short address is written twice.
short_address : shorten_diem_address (codes "t1") ≡ codes "t1....t1"
unfolding shorten_diem_address
short_address = refl
