-- ===== src/Payment/Dialog/Runs.antt =====
-- Runs of the dialog of frontend/src/components/PaymentConfirmationModal.tsx, and the page of
-- PaymentConfirmation.tsx around it.
use text.Mathlib.Text.{◌==◌ as str_eq}
use reference_wallet.Base.{
  ℕ, zero, suc, ◌≡◌, ◌↔◌, inl, inr, refl, Bool, true, false, not, Option, none, some, List, [], ◌∷◌,
  ◌++◌, String, arith, get_elem?, Bool-cases,
}
use reference_wallet.Payment.Params.{
  PaymentParams, PaymentDetails, Browser, Parsed, from_url_query_string,
}
use reference_wallet.Payment.Dialog.{
  page_of, load_page, shows_dialog, is_some, DetailsReply, replied, failed, poll, arrived,
  SubmitStatus, Decision, Modal, payment_approved, title, mount, Event, approve_pressed,
  reject_pressed, timer, settled, step, settle, fire, on_confirm, on_reject, shows_approve,
  shows_reject,
}

abbrev pub has_reject : List Decision → Bool
has_reject [] = false
has_reject (Decision.reject ∷ ds) = true
has_reject (Decision.approve ∷ ds) = has_reject ds

pub data Reach (p : PaymentParams) : Modal → Type 0 where
  mounted : Reach p mount
  next : {m : Modal} (e : Event) → Reach p m → Reach p (step p m e)

-- Of a payment that is not a demo: no timer runs, and a success is a rejection carried out.
record IsReal (m : Modal) : Type 0 where
  no_timers : m.timers ≡ 0
  rejected : m.submit_status ≡ SubmitStatus.success → has_reject m.answered ≡ true

-- Of a demo: nothing was asked, and nothing is awaited.
record IsDemo (m : Modal) : Type 0 where
  none_in_flight : m.in_flight ≡ []
  none_asked : m.asked ≡ []

settle-IsReal :
    (c : Option Decision) (i : ℕ) (b : Bool) (m : Modal) → IsReal m → IsReal (settle c i b m)
unfolding settle
settle-IsReal none i b m h = h
settle-IsReal (some Decision.approve) i true m h = record {
  no_timers = h.no_timers;
  rejected = h.rejected;
}
settle-IsReal (some Decision.approve) i false m h = record {
  no_timers = h.no_timers;
  rejected = λ e. absurd (cc);
}
settle-IsReal (some Decision.reject) i true m h = record {
  no_timers = h.no_timers;
  rejected = λ e. refl;
}
settle-IsReal (some Decision.reject) i false m h = record {
  no_timers = h.no_timers;
  rejected = h.rejected;
}

fire-IsReal : (m : Modal) → IsReal m → IsReal (fire m.timers m)
unfolding fire
fire-IsReal m h = rw (h.no_timers) (record { no_timers = refl; rejected = h.rejected })

step-IsReal :
    (p : PaymentParams) (m : Modal) (e : Event) → p.demo ≡ false → IsReal m → IsReal (step p m e)
unfolding step on_confirm on_reject
step-IsReal p m approve_pressed d h = elim (Bool-cases (shows_approve p m)) [
  | inl on ↦ rw (on, d) (record { no_timers = h.no_timers; rejected = h.rejected })
  | inr off ↦ rw off h
]
step-IsReal p m reject_pressed d h = elim (Bool-cases (shows_reject p m)) [
  | inl on ↦ rw (on, d) (record { no_timers = h.no_timers; rejected = h.rejected })
  | inr off ↦ rw off h
]
step-IsReal p m timer d h = fire-IsReal m h
step-IsReal p m (settled i b) d h = settle-IsReal (get_elem? m.in_flight i) i b m h

Reach-IsReal : {p : PaymentParams} {m : Modal} → p.demo ≡ false → Reach p m → IsReal m
unfolding mount
Reach-IsReal d mounted = record { no_timers = refl; rejected = λ e. absurd (cc) }
Reach-IsReal {p} d (next {m} e r) = step-IsReal p m e d (Reach-IsReal d r)

-- For a payment that is not a demo, the dialog's title says that the payment was approved only after
-- the backend carried out a rejection.
pub approved_title-rejected :
    {p : PaymentParams} {m : Modal}
    → p.demo ≡ false
    → Reach p m
    → title m ≡ payment_approved
    → has_reject m.answered ≡ true
unfolding title
approved_title-rejected {p} {m} d r h = (Reach-IsReal d r).rejected (ground arith)

settle-IsDemo :
    (i : ℕ) (b : Bool) (m : Modal) → IsDemo m → IsDemo (settle (get_elem? m.in_flight i) i b m)
unfolding settle
settle-IsDemo i b m h =
    rw (h.none_in_flight) (record { none_in_flight = refl; none_asked = h.none_asked })

fire-IsDemo : (n : ℕ) (m : Modal) → IsDemo m → IsDemo (fire n m)
unfolding fire
fire-IsDemo zero m h = h
fire-IsDemo (suc n) m h = record { none_in_flight = h.none_in_flight; none_asked = h.none_asked }

step-IsDemo :
    (p : PaymentParams) (m : Modal) (e : Event) → p.demo ≡ true → IsDemo m → IsDemo (step p m e)
unfolding step on_confirm on_reject
step-IsDemo p m approve_pressed d h = elim (Bool-cases (shows_approve p m)) [
  | inl on ↦ rw (on, d) (record { none_in_flight = h.none_in_flight; none_asked = h.none_asked })
  | inr off ↦ rw off h
]
step-IsDemo p m reject_pressed d h = elim (Bool-cases (shows_reject p m)) [
  | inl on ↦ rw (on, d) h
  | inr off ↦ rw off h
]
step-IsDemo p m timer d h = fire-IsDemo m.timers m h
step-IsDemo p m (settled i b) d h = settle-IsDemo i b m h

Reach-IsDemo : {p : PaymentParams} {m : Modal} → p.demo ≡ true → Reach p m → IsDemo m
unfolding mount
Reach-IsDemo d mounted = record { none_in_flight = refl; none_asked = refl }
Reach-IsDemo {p} d (next {m} e r) = step-IsDemo p m e d (Reach-IsDemo d r)

-- For a demo, whatever the user presses, the backend is asked neither to approve nor to reject.
demo-none_asked : {p : PaymentParams} {m : Modal} → p.demo ≡ true → Reach p m → m.asked ≡ []
demo-none_asked d r = (Reach-IsDemo d r).none_asked

-- For a full payment that is not a demo, a dialog that asks for a decision is the same
-- on the screen after an approval that the backend carried out, and a second press asks the
-- backend to approve once more.
approval_unseen :
    (p : PaymentParams) (m : Modal)
    → p.demo ≡ false
    → p.is_full ≡ true
    → m.submit_status ≡ SubmitStatus.edit
    → let approved = step p (step p m approve_pressed) (settled 0 true) in
      (approved.answered ≡ Decision.approve ∷ m.answered)
      × (title approved ≡ title m)
      × (shows_approve p approved ≡ true)
      × ((step p approved approve_pressed).asked ≡ Decision.approve ∷ Decision.approve ∷ m.asked)
unfolding step on_confirm settle title shows_approve
approval_unseen p m d f s = rw (d, f, s) (refl, refl, refl, refl)

-- How many empty replies come before an answer.
abbrev pub empty_replies : ℕ → List DetailsReply
empty_replies zero = []
empty_replies (suc n) = replied none ∷ empty_replies n

arrived-replies :
    (replies : List DetailsReply) (details : PaymentDetails)
    → poll replies ≡ arrived details
    → (n : ℕ) × (rest : List DetailsReply) × (replies
        ≡ empty_replies n ++ replied (some details) ∷ rest)
unfolding poll
arrived-replies [] details h = absurd (cc)
arrived-replies (failed ∷ replies) details h = absurd (cc)
arrived-replies (replied (some found) ∷ replies) details h = (0, replies, ground (arith, h))
arrived-replies (replied none ∷ replies) details h =
    let (n, rest, e) = arrived-replies replies details h in (suc n, rest, ground (arith, e))

replies-arrived :
    (n : ℕ) (rest : List DetailsReply) (details : PaymentDetails)
    → poll (empty_replies n ++ replied (some details) ∷ rest) ≡ arrived details
unfolding poll
replies-arrived zero rest details = refl
replies-arrived (suc n) rest details = replies-arrived n rest details

-- The loop ends with details exactly when the backend's first reply that is not empty is those
-- details, however many empty replies come before it.
poll-arrived_iff :
    (replies : List DetailsReply) (details : PaymentDetails)
    → (poll replies ≡ arrived details) ↔ (
        (n : ℕ) × (rest : List DetailsReply) × (replies
          ≡ empty_replies n ++ replied (some details) ∷ rest))
poll-arrived_iff replies details =
    (arrived-replies replies details, λ (n, rest, e). rw e (replies-arrived n rest details))

page_of-shows :
    (r : Parsed PaymentParams)
    → ((page_of r).show_error ≡ not (is_some (page_of r).payment_params))
      × ((is_some (page_of r).payment_params ≡ true) ↔ ((p : PaymentParams) × (r ≡ Parsed.ok p)))
page_of-shows (Parsed.ok p) = (refl, (λ e. (p, refl), λ e. refl))
page_of-shows (Parsed.err e) = (refl, (λ e. absurd (cc), λ (p, e). absurd (cc)))

-- A query string that is not empty brings up the alert or the dialog and never both, and the dialog
-- exactly when the link is read without an error.
load_page-shows :
    (b : Browser) (query_string : String)
    → str_eq query_string "" ≡ false
    → ((load_page b query_string).show_error
        ≡ not (shows_dialog query_string (load_page b query_string)))
      × ((shows_dialog query_string (load_page b query_string) ≡ true)
          ↔ ((p : PaymentParams) × (from_url_query_string b query_string ≡ Parsed.ok p)))
unfolding load_page
load_page-shows b query_string h = rw h (page_of-shows (from_url_query_string b query_string))
