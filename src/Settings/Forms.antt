-- ===== src/Settings/Forms.antt =====
-- The forms that add a payment method, frontend/src/components/Settings/BackAccountForm.tsx and
-- CreditCardForm.tsx, with their copies mobile/src/screens/AddBankAccount.tsx and AddCreditCard.tsx, and
-- the lists of PaymentMethodsForm.tsx of both clients. A text is the list of its character codes; the
-- token of uuid4 is an argument.
use reference_wallet.Base.{
  ℕ, Option, none, some, List, [], ◌∷◌, ◌++◌, codes, leb, length, get_elem?, if◌then◌else◌,
}
use reference_wallet.Amount.Text.{print_nat}
use reference_wallet.Options.{assign, lookup}
use reference_wallet.Send.Intents.{text_eq, value_text}

-- `text.slice(-k)`.
unfoldable pub slice_last : ℕ → List ℕ → List ℕ
slice_last k [] = []
slice_last k (c ∷ cs) =
    let rest = slice_last k cs in if leb (length (c ∷ cs)) k then c ∷ cs else rest

abbrev pub banks : List (List ℕ)
banks = codes "My Bank LTD" ∷ codes "My Other Bank" ∷ []

pub record BankAccount : Type 0 where
  pub bank : ℕ
  pub name : List ℕ
  pub account_number : ℕ

pub record CreditCard : Type 0 where
  pub number : ℕ
  pub name : List ℕ
  pub expiry : List ℕ
  pub cvc : ℕ

abbrev pub full_name : List ℕ → List ℕ → List ℕ
full_name first_name last_name = first_name ++ b' ' ∷ last_name

-- The states of the forms at the mount, and with the name of a user that is loaded.
abbrev pub initial_account : BankAccount
initial_account = record { bank = 0; name = codes "Sherlock Holmes"; account_number = 123456789 }

abbrev pub initial_card : CreditCard
initial_card = record {
  number = 4111111111111111;
  name = codes "Sherlock Holmes";
  expiry = codes "12/20";
  cvc = 123;
}

unfoldable pub name_account : Option (List ℕ × List ℕ) → BankAccount → BankAccount
name_account none account = account
name_account (some (first_name, last_name)) account = record account {
  name = full_name first_name last_name;
}

unfoldable pub name_card : Option (List ℕ × List ℕ) → CreditCard → CreditCard
name_card none card = card
name_card (some (first_name, last_name)) card = record card {
  name = full_name first_name last_name;
}

-- `NewPaymentMethod`.
pub record NewPaymentMethod : Type 0 where
  pub name : List ℕ
  pub provider : List ℕ
  pub token : List ℕ

-- `onFormSubmit` of the two forms; a bank that is not in the list is the text "undefined".
unfoldable pub account_method : BankAccount → List ℕ → NewPaymentMethod
unfolding print_nat slice_last
account_method account token = record {
  name =
      account.name
      ++ b' ' ∷ value_text (get_elem? banks account.bank)
      ++ codes " (**** "
      ++ slice_last 4 (print_nat account.account_number)
      ++ b')' ∷ [];
  provider = codes "BankAccount";
  token = token;
}

unfoldable pub card_method : CreditCard → List ℕ → NewPaymentMethod
unfolding print_nat slice_last
card_method card token = record {
  name =
      card.name
      ++ codes " (**** **** **** "
      ++ slice_last 4 (print_nat card.number)
      ++ b' ' ∷ card.expiry
      ++ b')' ∷ [];
  provider = codes "CreditCard";
  token = token;
}

-- `PaymentMethod` of the interfaces.
pub record PaymentMethod : Type 0 where
  pub id : ℕ
  pub name : List ℕ
  pub provider : List ℕ

abbrev pub or_no_methods : Option (List PaymentMethod) → List PaymentMethod
or_no_methods none = []
or_no_methods (some methods) = methods

-- `paymentMethods.reduce(…, {})`: the methods by their providers.
unfoldable pub add_method :
    List (List ℕ × List PaymentMethod) → PaymentMethod → List (List ℕ × List PaymentMethod)
unfolding assign lookup text_eq
add_method groups item =
    assign text_eq item.provider (or_no_methods (lookup text_eq item.provider groups) ++ item ∷ [])
      groups

unfoldable pub group_methods :
    List (List ℕ × List PaymentMethod) → List PaymentMethod → List (List ℕ × List PaymentMethod)
unfolding add_method
group_methods groups [] = groups
group_methods groups (item ∷ items) = group_methods (add_method groups item) items
