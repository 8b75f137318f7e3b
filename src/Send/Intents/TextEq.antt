-- ===== src/Send/Intents/TextEq.antt =====
-- The comparison of texts is equality.
use reference_wallet.Base.{ℕ, ◌≡◌, ◌↔◌, refl, true, List, [], ◌∷◌, arith, ==_iff}
use reference_wallet.Send.Intents.{text_eq}

text_eq_self : (s : List ℕ) → text_eq s s ≡ true
unfolding text_eq
text_eq_self [] = refl
text_eq_self (c ∷ cs) = rw ((==_iff c c).1 refl, text_eq_self cs) refl

pub text_eq→eq : (s t : List ℕ) → text_eq s t ≡ true → s ≡ t
unfolding text_eq
text_eq→eq [] [] h = refl
text_eq→eq [] (d ∷ ds) h = absurd (ground (arith, h))
text_eq→eq (c ∷ cs) [] h = absurd (ground (arith, h))
text_eq→eq (c ∷ cs) (d ∷ ds) h =
    let heads = (==_iff c d).0 (ground (arith, h)) in
    let tails = text_eq→eq cs ds (ground (arith, h)) in rw (heads, tails) refl

pub text_eq_iff : (s t : List ℕ) → (text_eq s t ≡ true) ↔ (s ≡ t)
text_eq_iff s t = (text_eq→eq s t, λ e. rw e (text_eq_self t))
