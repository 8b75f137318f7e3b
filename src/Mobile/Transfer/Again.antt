-- ===== src/Mobile/Transfer/Again.antt =====
-- What the header allows while a mobile transfer is sent.
use reference_wallet.Base.{◌≡◌, refl, Bool, true, false, [], ◌∷◌, none}
use reference_wallet.Transfer.Machine.{ok}
use reference_wallet.Mobile.Review.{SubmitStatus, Review, Press, press, is_sending}
use reference_wallet.Mobile.Transfer.{Screens, submit, quote_settled, reviewed, step}

-- While a review that stands over an open form sends its call, and no quote is awaited, the header leads
-- back to the form; when its button passes a press on, data that it accepts is submitted, a quote is given
-- and the new review is confirmed, a second call is made while the first is awaited by no screen.
pub resent_while_sending :
    {D Q : Type 0} (accepts : D → Bool) (accepts_press : Bool → Bool) (s : Screens D Q)
    (r : Review (Q × D)) (d : D) (q : Q)
    → s.stack.reviews ≡ r ∷ []
    → is_sending r.submit_status ≡ true
    → s.stack.is_closed ≡ false
    → s.requests ≡ []
    → accepts_press s.loading ≡ true
    → accepts d ≡ true
    → let go = step accepts accepts_press in
      let form = go s (reviewed (press Press.header_back)) in
      let review = go (go form (submit d)) (quote_settled 0 (ok q)) in
      let t = go review (reviewed (press Press.confirm)) in
      (t.stack.abandoned ≡ r.props ∷ s.stack.abandoned)
      × (t.stack.reviews
          ≡ (record { props = (q, d); submit_status = SubmitStatus.sending; error_message = none })
            ∷ [])
      × (t.stack.asked ≡ (q, d) ∷ s.stack.asked)
unfolding step
resent_while_sending accepts accepts_press s r d q over on opened idle pressed accepted =
    rw (over, on, opened, idle, pressed, accepted) (refl, refl, refl)
