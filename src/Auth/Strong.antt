-- ===== src/Auth/Strong.antt =====
-- What the form for a new password asks the backend for.
use reference_wallet.Base.{
  ℕ, ◌≡◌, inl, inr, refl, true, Option, none, some, List, erase_idx, All, All-erase_idx, Bool-cases,
  Option-cases, get_elem?,
}
use reference_wallet.Send.Intents.{text_eq}
use reference_wallet.Transfer.Machine.{Outcome, ok, backend_error, other_error}
use reference_wallet.Auth.{
  Reset, open_reset, submit_reset, finish_reset, some_token, send_reset, is_strong,
}

-- A call of the page for a new password ends: the one at `i`, if it is awaited.
abbrev pub settle_reset : Option (List ℕ × List ℕ) → ℕ → Outcome (Unit {0}) → Reset → Reset
settle_reset none i o s = s
settle_reset (some call) i o s = finish_reset o (record s { awaiting = erase_idx s.awaiting i })

-- The pages that typing, submitting and the ends of calls lead to.
pub data ReachReset (token : Option (List ℕ)) : Reset → Type 0 where
  opened : ReachReset token (open_reset token)
  typed :
      {s : Reset} (p q : List ℕ)
      → ReachReset token s
      → ReachReset token (record s { password = p; password_confirmation = q })
  submitted : {s : Reset} → ReachReset token s → ReachReset token (submit_reset s)
  ended :
      {s : Reset} (i : ℕ) (o : Outcome (Unit {0}))
      → ReachReset token s
      → ReachReset token (settle_reset (get_elem? s.awaiting i) i o s)

-- A call with the token of the link, which is not empty, and a strong password.
abbrev pub IsProper : Option (List ℕ) → List ℕ × List ℕ → Type 0
IsProper token call = (some_token token ≡ some (call.0)) × (is_strong call.1 ≡ true)

module _ (token : Option (List ℕ)) where
  record IsSound (s : Reset) : Type 0 where
    same : s.token ≡ token
    calls : All (IsProper token) s.awaiting

  sent-IsSound :
      (t : Option (List ℕ)) (s : Reset)
      → some_token s.token ≡ t
      → is_strong s.password ≡ true
      → IsSound s
      → IsSound (send_reset t s)
  sent-IsSound none s e k h = record { same = h.same; calls = h.calls }
  sent-IsSound (some t) s e k h = elim (Bool-cases (text_eq s.password s.password_confirmation)) [
    | inl on ↦ rw on (record { same = h.same; calls = ((rw (← (h.same)) e, k), h.calls) })
    | inr off ↦ rw off (record { same = h.same; calls = h.calls })
  ]

  finish-IsSound : (o : Outcome (Unit {0})) (s : Reset) → IsSound s → IsSound (finish_reset o s)
  unfolding finish_reset
  finish-IsSound (ok u) s h = record { same = h.same; calls = h.calls }
  finish-IsSound (backend_error e) s h = record { same = h.same; calls = h.calls }
  finish-IsSound other_error s h = record { same = h.same; calls = h.calls }

  Reach-IsSound : {s : Reset} → ReachReset token s → IsSound s
  unfolding open_reset submit_reset
  Reach-IsSound opened = record { same = refl; calls = tt }
  Reach-IsSound (typed p q c) = let h = Reach-IsSound c in record { same = h.same; calls = h.calls }
  Reach-IsSound (submitted {s} c) =
      let h = Reach-IsSound c in
      elim (Bool-cases (is_strong s.password)) [
        | inl on ↦ rw on (sent-IsSound (some_token s.token) s refl on h)
        | inr off ↦ rw off (record { same = h.same; calls = h.calls })
      ]
  Reach-IsSound (ended {s} i o c) =
      let h = Reach-IsSound c in
      elim (Option-cases (get_elem? s.awaiting i)) [
        | inl missing ↦ rw missing h
        | inr (call, found) ↦ rw found (
            finish-IsSound o (record s { awaiting = erase_idx s.awaiting i })
              (record {
                same = h.same;
                calls = All-erase_idx (IsProper token) s.awaiting i h.calls;
              }))
      ]

  -- Each new password that the page of a link has asked for and awaits is strong and asked for with
  -- the token of the link, which is not empty.
  pub reset-IsProper : {s : Reset} → ReachReset token s → All (IsProper token) s.awaiting
  reset-IsProper c = (Reach-IsSound c).calls
