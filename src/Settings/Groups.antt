-- ===== src/Settings/Groups.antt =====
-- The lists of payment methods of each provider.
use mathlib.Core.List.{append_assoc}
use reference_wallet.Base.{
  ℕ, ◌≡◌, ◌∙◌, refl, ap, Option, none, some, List, [], ◌∷◌, ◌++◌, Bool-cases, inl, inr,
  if◌then◌else◌,
}
use reference_wallet.Options.{lookup}
use reference_wallet.Options.Lookup.{lookup-assign}
use reference_wallet.Send.Intents.{text_eq}
use reference_wallet.Send.Intents.TextEq.{text_eq→eq, text_eq_iff}
use reference_wallet.Settings.Forms.{PaymentMethod, or_no_methods, add_method, group_methods}

-- The methods of a provider, in their order.
abbrev pub of_provider : List ℕ → List PaymentMethod → List PaymentMethod
of_provider k [] = []
of_provider k (m ∷ ms) = if text_eq m.provider k then m ∷ of_provider k ms else of_provider k ms

-- A list after another one that may be missing.
abbrev pub after : Option (List PaymentMethod) → List PaymentMethod → Option (List PaymentMethod)
after found [] = found
after found (m ∷ ms) = some (or_no_methods found ++ m ∷ ms)

after-hit :
    (found : Option (List PaymentMethod)) (m : PaymentMethod) (ms : List PaymentMethod)
    → after (some (or_no_methods found ++ m ∷ [])) ms ≡ after found (m ∷ ms)
after-hit found m [] = refl
after-hit found m (n ∷ ns) = ap some (append_assoc (or_no_methods found) (m ∷ []) (n ∷ ns))

chosen :
    (k : List ℕ) (groups : List (List ℕ × List PaymentMethod)) (m : PaymentMethod)
    (ms : List PaymentMethod)
    → after
        (if text_eq m.provider k
          then some (or_no_methods (lookup text_eq m.provider groups) ++ m ∷ [])
          else lookup text_eq k groups)
        (of_provider k ms)
      ≡ after (lookup text_eq k groups) (of_provider k (m ∷ ms))
chosen k groups m ms = elim (Bool-cases (text_eq m.provider k)) [
  | inl hit ↦
      let same =
        ap (λ (p : List ℕ). or_no_methods (lookup text_eq p groups))
          (text_eq→eq m.provider k hit) in
      rw hit (
        ap (λ (l : List PaymentMethod). after (some (l ++ m ∷ [])) (of_provider k ms)) same
        ∙ after-hit (lookup text_eq k groups) m (of_provider k ms))
  | inr miss ↦ rw miss refl
]

lookup-group_methods :
    (k : List ℕ) (groups : List (List ℕ × List PaymentMethod)) (ms : List PaymentMethod)
    → lookup text_eq k (group_methods groups ms)
      ≡ after (lookup text_eq k groups) (of_provider k ms)
unfolding group_methods add_method
lookup-group_methods k groups [] = refl
lookup-group_methods k groups (m ∷ ms) =
    lookup-group_methods k (add_method groups m) ms
    ∙ ap (λ (o : Option (List PaymentMethod)). after o (of_provider k ms))
        (lookup-assign text_eq text_eq_iff k m.provider
          (or_no_methods (lookup text_eq m.provider groups) ++ m ∷ []) groups)
    ∙ chosen k groups m ms

-- The lists of a provider hold all its methods, in their order, and a provider without methods has no
-- list, so that the page says that there are none.
pub group_methods-lists :
    (k : List ℕ) (ms : List PaymentMethod)
    → lookup text_eq k (group_methods [] ms) ≡ after none (of_provider k ms)
unfolding lookup
group_methods-lists k ms = lookup-group_methods k [] ms
