-- ===== src/Mobile/Verify/Stuck.antt =====
-- The last form of the mobile wizard once it was submitted.
use reference_wallet.Base.{
  ℕ, ◌≡◌, refl, subst, sym, subst, sym, Bool, true, false, Option, none, some, List, [], ◌∷◌,
  String, arith, All, get_elem?, if◌then◌else◌,
}
use reference_wallet.Transfer.Machine.{Outcome, ok, backend_error, other_error}
use reference_wallet.Verify.Forms.{UserInfo, default_currency, merge, mobile_accepts}
use reference_wallet.Mobile.Verify.{
  Wizard, Pending, Event, values_submitted, document_submitted, back, dummy_chosen, settled, press,
  run_event, finish_submit, settle_at, submit_values, submit,
}

-- The wizard at its last step, after its form was submitted.
record IsLoading (sent : List UserInfo) (w : Wizard) : Type 0 where
  last : w.step ≡ 5
  loading : w.loading ≡ true
  kept : w.submitted ≡ sent

abbrev pub IsNotBack : Event → Type 0
IsNotBack back = ⊥
IsNotBack _ = Unit

finish-IsLoading :
    (sent : List UserInfo) (p : Pending) (info : UserInfo) (o : Outcome (Unit {0})) (w : Wizard)
    → IsLoading sent w
    → IsLoading sent (finish_submit p info o w)
unfolding finish_submit
finish-IsLoading sent Pending.updating info (ok u) w h = record {
  last = h.last;
  loading = h.loading;
  kept = h.kept;
}
finish-IsLoading sent Pending.rooting info (ok u) w h = record {
  last = h.last;
  loading = h.loading;
  kept = h.kept;
}
finish-IsLoading sent Pending.updating info (backend_error e) w h = record {
  last = h.last;
  loading = h.loading;
  kept = h.kept;
}
finish-IsLoading sent Pending.rooting info (backend_error e) w h = record {
  last = h.last;
  loading = h.loading;
  kept = h.kept;
}
finish-IsLoading sent Pending.updating info other_error w h = record {
  last = h.last;
  loading = h.loading;
  kept = h.kept;
}
finish-IsLoading sent Pending.rooting info other_error w h = record {
  last = h.last;
  loading = h.loading;
  kept = h.kept;
}

chosen-IsLoading :
    (sent : List UserInfo) (b : Bool) (v w : Wizard)
    → IsLoading sent v
    → IsLoading sent w
    → IsLoading sent (if b then v else w)
chosen-IsLoading sent true v w h k = h
chosen-IsLoading sent false v w h k = k

settle-IsLoading :
    (sent : List UserInfo) (p : Option (Pending × UserInfo)) (i : ℕ) (o : Outcome (Unit {0}))
    (w : Wizard)
    → IsLoading sent w
    → IsLoading sent (settle_at p i o w)
unfolding settle_at
settle-IsLoading sent none i o w h = h
settle-IsLoading sent (some (p, info)) i o w h =
    finish-IsLoading sent p info o _ (record { last = h.last; loading = h.loading; kept = h.kept })

module _ (moment : String → Option ℕ) (accepts_press : Bool → Bool) where
  held :
      (w : Wizard) (e : Event)
      → accepts_press true ≡ false
      → w.step ≡ 5
      → w.loading ≡ true
      → IsNotBack e
      → press moment accepts_press w e ≡ w
  unfolding press
  held w (values_submitted now v) holds last loading e =
      let shut : accepts_press w.loading ≡ false = rw loading holds in ground (arith, shut)
  held w document_submitted holds last loading e = ground arith
  held w back holds last loading e = absurd e
  held w (dummy_chosen f c) holds last loading e = ground arith
  held w (settled i o) holds last loading e = refl

  held-IsLoading :
      (sent : List UserInfo) (w : Wizard) (e : Event)
      → accepts_press true ≡ false
      → IsNotBack e
      → IsLoading sent w
      → IsLoading sent (if w.is_closed then w else press moment accepts_press w e)
  held-IsLoading sent w e holds forward h =
      chosen-IsLoading sent w.is_closed w (press moment accepts_press w e) h
        (rw (held w e holds h.last h.loading forward) h)

  run_event-IsLoading :
      (sent : List UserInfo) (w : Wizard) (e : Event)
      → accepts_press true ≡ false
      → IsNotBack e
      → IsLoading sent w
      → IsLoading sent (run_event moment accepts_press w e)
  unfolding run_event
  run_event-IsLoading sent w (settled i o) holds forward h =
      settle-IsLoading sent (get_elem? w.pending i) i o w h
  run_event-IsLoading sent w (values_submitted now v) holds forward h =
      held-IsLoading sent w (values_submitted now v) holds forward h
  run_event-IsLoading sent w document_submitted holds forward h =
      held-IsLoading sent w document_submitted holds forward h
  run_event-IsLoading sent w back holds forward h = absurd forward
  run_event-IsLoading sent w (dummy_chosen f c) holds forward h =
      held-IsLoading sent w (dummy_chosen f c) holds forward h

  abbrev pub run : Wizard → List Event → Wizard
  run w [] = w
  run w (e ∷ es) = run (run_event moment accepts_press w e) es

  run-IsLoading :
      (sent : List UserInfo) (w : Wizard) (es : List Event)
      → accepts_press true ≡ false
      → All IsNotBack es
      → IsLoading sent w
      → IsLoading sent (run w es)
  run-IsLoading sent w [] holds forward h = h
  run-IsLoading sent w (e ∷ es) holds (f, forward) h =
      run-IsLoading sent (run_event moment accepts_press w e) es holds forward
        (run_event-IsLoading sent w e holds f h)

  submits :
      (w : Wizard) (now : ℕ) (code : String)
      → w.step ≡ 5
      → w.is_closed ≡ false
      → accepts_press w.loading ≡ true
      → mobile_accepts moment now (default_currency code) ≡ true
      → run_event moment accepts_press w (values_submitted now (default_currency code))
        ≡ submit_values (default_currency code) w
  unfolding run_event press
  submits w now code last open_still passes valid = ground (arith, last, open_still, passes, valid)

  -- When a loading button holds presses back, then once the last form was submitted nothing more is
  -- submitted, and the wizard stays at its last step, until one presses the button to go back: also when
  -- the submission has failed.
  pub submitted_once :
      (w : Wizard) (now : ℕ) (code : String) (es : List Event)
      → accepts_press true ≡ false
      → w.step ≡ 5
      → w.is_closed ≡ false
      → accepts_press w.loading ≡ true
      → mobile_accepts moment now (default_currency code) ≡ true
      → All IsNotBack es
      → let info = merge w.user_information (default_currency code) in
        let ended = run w (values_submitted now (default_currency code) ∷ es) in
        (ended.submitted ≡ info ∷ w.submitted) × (ended.step ≡ 5)
  unfolding submit_values submit
  submitted_once w now code es holds last open_still passes valid forward =
      let info = merge w.user_information (default_currency code) in
      let v = submit_values (default_currency code) w in
      let h : IsLoading (info ∷ w.submitted) v = record {
        last = last;
        loading = refl;
        kept = refl;
      } in
      let ended = run-IsLoading (info ∷ w.submitted) v es holds forward h in
      subst (λ (x : Wizard). ((run x es).submitted ≡ info ∷ w.submitted) × ((run x es).step ≡ 5))
        (sym (submits w now code last open_still passes valid)) (ended.kept, ended.last)
