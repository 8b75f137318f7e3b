-- ===== src/Transfer/Machine.antt =====
-- The state machine that frontend/src/components/Transfer/Withdraw.tsx, Deposit.tsx and Convert.tsx
-- share: the reducer's state and actions, the effect that talks to the backend, the view, and the
-- events that reach the dialog. `D` is the data of the form and `Q` the backend's quote.
--
-- A promise that is awaited is an entry of `requests` or `executions`; it settles by an event that
-- names its position. An effect starts when a dispatch changes one of its dependencies `phase`,
-- `requestData` and `quote`. The passive effects of one dispatch are flushed before the next one.
mod Dispatch
pub mod Invariant
pub mod Reach
pub mod Failure
pub mod Fed
pub mod Progress
use text.Mathlib.Text.{◌==◌ as str_eq}
use reference_wallet.Base.{
  ℕ, ◌≡◌, ◌≢◌, Bool, true, false, not, ◌&&◌, ◌||◌, Option, none, some, List, [], ◌∷◌, map, String,
  get_elem?, erase_idx, if◌then◌else◌,
}

pub data Phase : Type 0 where
  collect quote review execute executing done : Phase

pub record State (D Q : Type 0) : Type 0 where
  pub phase : Phase
  pub request_data : D
  pub quote : Option Q
  pub error_message : Option String

pub data Action (D Q : Type 0) : Type 0 where
  collect : Action D Q
  quote : D → Action D Q
  review : Q → Action D Q
  execute executing done : Action D Q
  error : String → Action D Q

-- The phase after a failure: a failed quote goes back to the form, a failed execution to the
-- review, and any other phase stays.
abbrev pub after_error : Phase → Phase
after_error Phase.quote = Phase.collect
after_error Phase.execute = Phase.review
after_error p = p

-- The array test `["review", "execute", "executing", "done"].includes(phase)`.
abbrev pub shows_review : Phase → Bool
shows_review Phase.collect = false
shows_review Phase.quote = false
shows_review _ = true

abbrev pub is_executing : Phase → Bool
is_executing Phase.executing = true
is_executing _ = false

abbrev pub is_done : Phase → Bool
is_done Phase.done = true
is_done _ = false

-- What the three reducers have in common. They differ in what `quote` and `errorMessage` become
-- when the form is submitted.
pub record Reducer (D Q : Type 0) : Type 0 where
  pub reduce : State D Q → Action D Q → State D Q
  pub reduce-collect :
      (s : State D Q) → reduce s Action.collect ≡ record s { phase = Phase.collect }
  pub reduce-quote_phase : (s : State D Q) (d : D) → (reduce s (Action.quote d)).phase ≡ Phase.quote
  pub reduce-quote_data : (s : State D Q) (d : D) → (reduce s (Action.quote d)).request_data ≡ d
  pub reduce-review :
      (s : State D Q) (q : Q)
      → reduce s (Action.review q) ≡ record s { phase = Phase.review; quote = some q }
  pub reduce-execute :
      (s : State D Q) → reduce s Action.execute ≡ record s { phase = Phase.execute }
  pub reduce-executing :
      (s : State D Q) → reduce s Action.executing ≡ record s { phase = Phase.executing }
  pub reduce-done : (s : State D Q) → reduce s Action.done ≡ record s { phase = Phase.done }
  pub reduce-error :
      (s : State D Q) (e : String)
      → reduce s (Action.error e) ≡ record s { phase = after_error s.phase; error_message = some e }

-- What an awaited call ends with: a result, a `BackendError` with its message, another exception.
pub data Outcome (A : Type 0) : Type 0 where
  ok : A → Outcome A
  backend_error : String → Outcome A
  other_error : Outcome A

-- An awaited `requestQuote`, with the data that its closure captured and its effect's `isOutdated`.
pub record Request (D : Type 0) : Type 0 where
  pub data_sent : D
  pub is_outdated : Bool

-- `executed` is the history of the calls of `executeQuote` that reached the backend, latest first.
pub record Machine (D Q : Type 0) : Type 0 where
  pub is_loaded : Bool
  pub state : State D Q
  pub requests : List (Request D)
  pub executions : List (Q × D)
  pub executed : List (Q × D)

abbrev pub outdate : {D : Type 0} → Request D → Request D
outdate r = record r { is_outdated = true }

-- Whether the effect's dependencies are the same after a dispatch. A submitted form and a quote
-- from the backend are new objects; the other actions leave both alone.
abbrev pub same_phase : Phase → Phase → Bool
same_phase Phase.collect Phase.collect = true
same_phase Phase.quote Phase.quote = true
same_phase Phase.review Phase.review = true
same_phase Phase.execute Phase.execute = true
same_phase Phase.executing Phase.executing = true
same_phase Phase.done Phase.done = true
same_phase _ _ = false

abbrev pub same_dependencies : {D Q : Type 0} → Action D Q → Phase → Phase → Bool
same_dependencies (Action.quote d) p p' = false
same_dependencies (Action.review q) p p' = false
same_dependencies _ p p' = same_phase p p'

-- What is on the screen: nothing before the settings are loaded, the form, or the review with its
-- quote and the flags `submitting` and `submitted`. The first field is the error banner.
pub data View (D Q : Type 0) : Type 0 where
  hidden : View D Q
  form : Option String → D → View D Q
  review : Option String → Bool → Option Q → Bool → Bool → View D Q

-- `errorMessage && …`: an empty message is not shown.
abbrev pub banner : Option String → Option String
banner none = none
banner (some e) = if str_eq e "" then none else some e

unfoldable pub view : {D Q : Type 0} → Machine D Q → View D Q
view m =
    if m.is_loaded
    then (if shows_review s.phase
        then View.review (banner s.error_message) (is_done s.phase) s.quote (is_executing s.phase)
            (is_done s.phase)
        else View.form (banner s.error_message) s.request_data)
    else View.hidden
  where
    open m use {state as s}

abbrev pub accepts_submit : {D Q : Type 0} → View D Q → Bool
accepts_submit (View.form e d) = true
accepts_submit _ = false

-- The review's buttons to confirm and to go back stand there unless `submitted`, and are disabled
-- while `submitting`.
abbrev pub accepts_decision : {D Q : Type 0} → View D Q → Bool
accepts_decision (View.review e b q submitting submitted) = not submitted && not submitting
accepts_decision _ = false

pub data Event (D Q : Type 0) : Type 0 where
  load : Event D Q
  submit : D → Event D Q
  back confirm : Event D Q
  quote_settled : ℕ → Outcome Q → Event D Q
  execution_settled : ℕ → Outcome (Unit {0}) → Event D Q

module _ {D Q : Type 0} (r : Reducer D Q) where
  -- The effect that starts when the phase is "execute". Without a quote, `quote!.quoteId` throws
  -- and the exception is caught.
  start_execution : Option Q → Machine D Q → Machine D Q
  start_execution none m = record m {
    state = r.reduce (r.reduce m.state Action.executing) (Action.error "Internal Error");
  }
  start_execution (some q) m = record m {
    state = r.reduce m.state Action.executing;
    executions = (q, m.state.request_data) ∷ m.executions;
    executed = (q, m.state.request_data) ∷ m.executed;
  }

  run_effect : Phase → Machine D Q → Machine D Q
  unfolding start_execution
  run_effect Phase.quote m = record m {
    requests = (record { data_sent = m.state.request_data; is_outdated = false }) ∷ m.requests;
  }
  run_effect Phase.execute m = start_execution m.state.quote m
  run_effect _ m = m

  -- A dispatch, with the clean-up of the effect before it and the effect after it.
  pub dispatch : Action D Q → Machine D Q → Machine D Q
  unfolding run_effect
  dispatch a m =
      let s' = r.reduce m.state a in
      if same_dependencies a m.state.phase s'.phase
      then record m { state = s' }
      else run_effect s'.phase (record m { state = s'; requests = map outdate m.requests })

  -- What follows the `await` in `requestQuote`. A failure is dispatched even if it is outdated.
  pub finish_request : Bool → Outcome Q → Machine D Q → Machine D Q
  unfolding dispatch
  finish_request is_outdated (ok q) m = if is_outdated then m else dispatch (Action.review q) m
  finish_request is_outdated (backend_error e) m = dispatch (Action.error e) m
  finish_request is_outdated other_error m = dispatch (Action.error "Internal Error") m

  -- What follows the `await` in `executeQuote`.
  pub finish_execution : Outcome (Unit {0}) → Machine D Q → Machine D Q
  unfolding dispatch
  finish_execution (ok _) m = dispatch Action.done m
  finish_execution (backend_error e) m = dispatch (Action.error e) m
  finish_execution other_error m = dispatch (Action.error "Internal Error") m

  settle_request : Option (Request D) → ℕ → Outcome Q → Machine D Q → Machine D Q
  unfolding finish_request
  settle_request none i o m = m
  settle_request (some q) i o m =
      finish_request q.is_outdated o (record m { requests = erase_idx m.requests i })

  settle_execution : Option (Q × D) → ℕ → Outcome (Unit {0}) → Machine D Q → Machine D Q
  unfolding finish_execution
  settle_execution none i o m = m
  settle_execution (some x) i o m =
      finish_execution o (record m { executions = erase_idx m.executions i })

  -- An event that the view does not offer changes nothing.
  unfoldable pub step : Machine D Q → Event D Q → Machine D Q
  unfolding dispatch settle_request settle_execution view
  step m load = record m { is_loaded = true }
  step m (submit d) = if accepts_submit (view m) then dispatch (Action.quote d) m else m
  step m back = if accepts_decision (view m) then dispatch Action.collect m else m
  step m confirm = if accepts_decision (view m) then dispatch Action.execute m else m
  step m (quote_settled i o) = settle_request (get_elem? m.requests i) i o m
  step m (execution_settled i o) = settle_execution (get_elem? m.executions i) i o m

  unfoldable pub run : Machine D Q → List (Event D Q) → Machine D Q
  run m [] = m
  run m (e ∷ es) = run (step m e) es
