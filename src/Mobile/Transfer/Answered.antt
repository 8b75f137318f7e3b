-- ===== src/Mobile/Transfer/Answered.antt =====
-- The quotes that the mobile reviews execute.
use reference_wallet.Base.{
  ◌≡◌, inl, inr, refl, ap, subst, Bool, true, false, ◌&&◌, some, get_elem?, erase_idx, arith, All,
  All-get_elem?, All-erase_idx, Bool-cases, Option-cases, if◌then◌else◌,
}
use reference_wallet.Transfer.Machine.{Outcome, ok, backend_error, other_error}
use reference_wallet.Mobile.Review.{push, is_on_top}
use reference_wallet.Mobile.Review.Props.{IsFed, push-IsFed, step-IsFed}
use reference_wallet.Mobile.Transfer.{
  Screens, Event, submit, quote_settled, reviewed, on_form_submit, finish_quote, settle_quote_at,
  step, mount,
}

-- `Answers d q`: the backend may answer the request for `d` with `q`.
module _ {D Q : Type 0} (accepts : D → Bool) (accepts_press : Bool → Bool)
    (Answers : D → Q → Type 0) where
  -- An event in which the backend keeps to `Answers`.
  abbrev pub IsHonest : Screens D Q → Event D Q → Type 0
  IsHonest s (quote_settled i (ok q)) = (d : D) → get_elem? s.requests i ≡ some d → Answers d q
  IsHonest s _ = Unit

  pub data HonestReach : Screens D Q → Type 0 where
    mounted : HonestReach mount
    next :
        {s : Screens D Q} (e : Event D Q)
        → HonestReach s
        → IsHonest s e
        → HonestReach (step accepts accepts_press s e)

  -- Data that the form accepted, with a quote that answers it.
  abbrev pub IsAnswered : Q × D → Type 0
  IsAnswered x = (accepts x.1 ≡ true) × Answers x.1 x.0

  record IsSound (s : Screens D Q) : Type 0 where
    requested : All (λ d. accepts d ≡ true) s.requests
    fed : IsFed IsAnswered s.stack

  finish-IsSound :
      (d : D) (o : Outcome Q) (s : Screens D Q)
      → ((q : Q) → o ≡ ok q → IsAnswered (q, d))
      → IsSound s
      → IsSound (finish_quote d o s)
  unfolding finish_quote
  finish-IsSound d (ok q) s a h = record { requested = h.requested; fed = pushed s.stack.is_closed }
    where
      pushed : (b : Bool) → IsFed IsAnswered (if b then s.stack else push (q, d) s.stack)
      pushed true = h.fed
      pushed false = push-IsFed IsAnswered (q, d) s.stack (a q refl) h.fed
  finish-IsSound d (backend_error e) s a h = record { requested = h.requested; fed = h.fed }
  finish-IsSound d other_error s a h = record { requested = h.requested; fed = h.fed }

  step-IsSound :
      (s : Screens D Q) (e : Event D Q)
      → IsHonest s e
      → IsSound s
      → IsSound (step accepts accepts_press s e)
  unfolding step on_form_submit settle_quote_at
  step-IsSound s (submit d) a h =
      elim (Bool-cases (is_on_top s.stack && (accepts_press s.loading && accepts d))) [
        | inl on ↦ rw on (record { requested = (ground (arith, on), h.requested); fed = h.fed })
        | inr off ↦ rw off h
      ]
  step-IsSound s (quote_settled i o) a h = elim (Option-cases (get_elem? s.requests i)) [
    | inl missing ↦ rw missing h
    | inr (d, found) ↦ rw found (
        finish-IsSound d o (record s { requests = erase_idx s.requests i })
          (λ q e. (
            All-get_elem? (λ (x : D). accepts x ≡ true) s.requests i h.requested found,
            answer d q found e,
          ))
          (record { requested = All-erase_idx _ s.requests i h.requested; fed = h.fed }))
  ]
    where
      answer : (d : D) (q : Q) → get_elem? s.requests i ≡ some d → o ≡ ok q → Answers d q
      answer d q found e = subst (IsHonest s) (ap (quote_settled i) e) a d found
  step-IsSound s (reviewed e) a h = record {
    requested = h.requested;
    fed = step-IsFed IsAnswered s.stack e h.fed;
  }

  -- As long as the backend answers what it is asked, each quote that the reviews have asked to execute
  -- answers data that the form accepted, and is executed for that data.
  pub executed-IsAnswered : {s : Screens D Q} → HonestReach s → All IsAnswered s.stack.asked
  unfolding mount
  executed-IsAnswered {s} c = (sound c).fed.asked
    where
      sound : {s : Screens D Q} → HonestReach s → IsSound s
      sound mounted = record { requested = tt; fed = record { reviewed = tt; asked = tt } }
      sound (next {s} e c a) = step-IsSound s e a (sound c)
