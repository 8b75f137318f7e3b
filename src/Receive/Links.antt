-- ===== src/Receive/Links.antt =====
-- The links that the dialog shows.
use reference_wallet.Base.{ℕ, ◌≡◌, refl, false, none, some, List, [], ◌∷◌}
use reference_wallet.Send.Intents.{text_eq, receiving_link}
use reference_wallet.Transfer.Machine.{ok}
use reference_wallet.Receive.{Receive, select, settled, step}

-- The dialog has the address `a`, awaits nothing, and shows the link of `c`, which is selected.
pub record IsLinked (a c : List ℕ) (s : Receive) : Type 0 where
  pub address : s.receiving_address ≡ some a
  pub idle : s.pending ≡ []
  pub selected : s.selected_currency ≡ some c
  pub link : s.receiving_address_with_intents ≡ some (receiving_link a c)

abbrev pub selections : Receive → List (List ℕ) → Receive
selections s [] = s
selections s (c ∷ cs) = selections (step s (select c)) cs

abbrev pub last_of : List ℕ → List (List ℕ) → List ℕ
last_of c [] = c
last_of c (d ∷ ds) = last_of d ds

-- When two currencies are selected one after the other before there is an address, and the reply to
-- the second call comes first, the dialog ends with the second currency selected and the link of the
-- first, of the address that the first call has created.
stale_link :
    (s : Receive) (c d : ℕ) (cs ds a b : List ℕ)
    → s.receiving_address ≡ none
    → s.pending ≡ []
    → s.selected_currency ≡ none
    → text_eq (c ∷ cs) (d ∷ ds) ≡ false
    → let asked = step (step s (select (c ∷ cs))) (select (d ∷ ds)) in
      let shown = step (step asked (settled 0 (ok b))) (settled 0 (ok a)) in
      (shown.selected_currency ≡ some (d ∷ ds))
      × (shown.receiving_address_with_intents ≡ some (receiving_link a (c ∷ cs)))
      × (shown.receiving_address ≡ some a)
      × (shown.pending ≡ [])
unfolding step
stale_link s c d cs ds a b no_address idle none_selected other =
    rw (none_selected, no_address, idle, other) (refl, refl, refl, refl)
