-- ===== src/Settings/Tests.antt =====
-- Payment methods of the settings.
use reference_wallet.Base.{◌≡◌, refl, none, some, List, [], ◌∷◌, codes}
use reference_wallet.Options.{lookup}
use reference_wallet.Send.Intents.{text_eq}
use reference_wallet.Settings.Forms.{
  PaymentMethod, initial_account, initial_card, name_card, account_method, card_method,
  group_methods,
}
use reference_wallet.Settings.Groups.{after, of_provider, group_methods-lists}

account_name :
    (account_method initial_account []).name ≡ codes "Sherlock Holmes My Bank LTD (**** 6789)"
unfolding account_method
account_name = refl

card_name :
    (card_method (name_card (some (codes "Ann", codes "Lee")) initial_card) []).name
    ≡ codes "Ann Lee (**** **** **** 1111 12/20)"
unfolding card_method name_card
card_name = refl

abbrev methods : List PaymentMethod
methods =
    record { id = 1; name = codes "a"; provider = codes "CreditCard" }
    ∷ record { id = 2; name = codes "b"; provider = codes "BankAccount" }
    ∷ record { id = 3; name = codes "c"; provider = codes "CreditCard" }
    ∷ []

group_methods-lists_example :
    lookup text_eq (codes "CreditCard") (group_methods [] methods)
    ≡ after none (of_provider (codes "CreditCard") methods)
group_methods-lists_example = group_methods-lists (codes "CreditCard") methods
