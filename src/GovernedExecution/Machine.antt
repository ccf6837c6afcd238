-- ===== src/GovernedExecution/Machine.antt =====
-- src/eag/governed_execution/state_machine.py. An event bus is the function that tells whether the
-- handlers of an event return (`true`) or raise (`false`); the events handed to it come back
-- beside the result. `now` is the clock's reading.
pub mod Charging
pub mod Transitions
pub mod Runs
pub mod LastRecord
pub mod Rebuild
pub mod Bounds
pub mod Effects
pub mod Publishing
use text.Mathlib.Text.{◌==◌ as str_eq}
use eag.Prelude.{
  ℕ, ◌+◌, Bool, true, false, ◌||◌, String, Option, none, some, List, [], ◌∷◌, ◌++◌, Result, ok, err,
  ◌>>=◌, ◌>>◌, length, contains, if◌then◌else◌,
}
use eag.GovernedExecution.State.{
  State, created, context_assembling, mutating, verifying, failed, StopReason,
  iteration_budget_exhausted, mutation_budget_exhausted, verification_budget_exhausted, is_terminal,
  same_state, is_legal,
}
use eag.GovernedExecution.Failure.{Failure, message}
use eag.GovernedExecution.Reason.{validate_terminal_stop_reason}
use eag.GovernedExecution.Budget.{Budget, consume_iteration, consume_mutation, consume_verification}
use eag.GovernedExecution.Ledger.{Evidence, Record, Context, make_record, make_context, final}

-- The local variables of `_advance` behind the budget.
pub record Charge : Type 0 where
  pub target : State
  pub budget : Budget
  pub iteration : ℕ
  pub exhausted : Option StopReason

abbrev granted : Context → State → Budget → Charge
granted c target b = record {
  target = target;
  budget = b;
  iteration = c.iteration;
  exhausted = none;
}

abbrev refused : Context → StopReason → Charge
refused c reason = record {
  target = failed;
  budget = c.budget;
  iteration = c.iteration;
  exhausted = some reason;
}

-- The `if`/`elif` chain of `_advance` on the target.
unfoldable pub charge : Context → State → Charge
charge c context_assembling = elim (consume_iteration c.budget) [
  | ok b ↦ record (granted c context_assembling b) { iteration = b.iterations_used }
  | err e ↦ refused c iteration_budget_exhausted
]
charge c mutating = elim (consume_mutation c.budget) [
  | ok b ↦ granted c mutating b
  | err e ↦ refused c mutation_budget_exhausted
]
charge c verifying = elim (consume_verification c.budget) [
  | ok b ↦ granted c verifying b
  | err e ↦ refused c verification_budget_exhausted
]
charge c target = granted c target c.budget

-- `a or b`
abbrev pub or_else {ℓ} : {A : Type ℓ} → Option A → Option A → Option A
or_else (some a) b = some a
or_else none b = b

abbrev pub next_record : ℕ → Context → Charge → List Evidence → Option StopReason → Record
next_record now c p evidence reason = record {
  sequence = length c.history + 1;
  iteration = p.iteration;
  from_state = c.state;
  to_state = p.target;
  occurred_at = now;
  reason = reason;
  evidence = evidence;
}

-- `replace(context, …)`, before its validation.
abbrev pub next_context : Context → Charge → Record → Context
next_context c p r = record c {
  state = p.target;
  iteration = p.iteration;
  budget = p.budget;
  history = c.history ++ r ∷ [];
  evidence = c.evidence ++ r.evidence;
  stop_reason = r.reason;
}

-- `_advance`, behind the budget.
unfoldable pub advance_charged :
    ℕ → Context → Charge → List Evidence → Option StopReason → Result Failure Context
advance_charged now c p evidence reason = do
  validate_terminal_stop_reason p.target reason
  r ← make_record (next_record now c p evidence reason)
  make_context (next_context c p r)

-- `_advance`
unfoldable pub advance :
    ℕ → Context → State → List Evidence → Option StopReason → Result Failure Context
advance now c target evidence stop_reason =
    let p = charge c target in advance_charged now c p evidence (or_else p.exhausted stop_reason)

-- `_budget_or_validation_code`
unfoldable pub budget_or_validation_code : Failure → String
unfolding contains message
budget_or_validation_code error =
    let text = message error in
    if contains text "budget"
    then "budget_exhausted"
    else if contains text "stop_reason" || contains text "stop reason"
    then "invalid_stop_reason"
    else "invalid_transition_input"

-- `TransitionResult`
pub record TransitionResult : Type 0 where
  pub accepted : Bool
  pub context : Context
  pub error_code : Option String

abbrev pub accept : Context → TransitionResult
accept c = record { accepted = true; context = c; error_code = none }

abbrev pub reject : Context → String → TransitionResult
reject c code = record { accepted = false; context = c; error_code = some code }

-- The events of events.py, with the fields that vary.
pub data Event : Type 0 where
  started : (iteration sequence : ℕ) → State → Event
  transitioned : (iteration sequence : ℕ) → (from_state to_state : State) → ℕ → Event
  stopped : (iteration sequence : ℕ) → State → StopReason → Event

abbrev pub Bus : Type 0
Bus = Event → Bool

-- What the body of the `try` of `_publish` publishes, in its order.
unfoldable pub observations : Context → Context → Record → List Event
observations previous current r =
    (if same_state previous.state created
      then started current.iteration r.sequence current.state ∷ []
      else [])
    ++ (transitioned current.iteration r.sequence previous.state current.state (length r.evidence)
        ∷ elim current.stop_reason [
          | none ↦ []
          | some reason ↦
              if is_terminal current.state
              then stopped current.iteration r.sequence current.state reason ∷ []
              else []
        ])

-- Publishing ends at the first event whose handlers raise.
unfoldable pub deliver : Bus → List Event → List Event
deliver bus [] = []
deliver bus (e ∷ es) = let rest = deliver bus es in e ∷ (if bus e then rest else [])

publish_last : Bus → Context → Context → List Record → List Event
publish_last bus previous current [] = []
publish_last bus previous current (r ∷ rs) =
    deliver bus (observations previous current (final r rs))

-- `_publish`
unfoldable pub publish : Option Bus → Context → Context → List Event
unfolding publish_last deliver observations
publish none previous current = []
publish (some bus) previous current = publish_last bus previous current current.history

-- The `try` around `_advance`.
abbrev conclude : Context → Result Failure Context → TransitionResult
conclude c (ok c') = accept c'
conclude c (err e) = reject c (budget_or_validation_code e)

-- `transition` without its publishing.
unfoldable pub attempt : ℕ → Context → State → List Evidence → Option StopReason → TransitionResult
attempt now c target evidence stop_reason =
    if is_legal c.state target
    then conclude c (advance now c target evidence stop_reason)
    else reject c "illegal_transition"

-- `transition`
unfoldable pub transition :
    Option Bus
    → ℕ
    → Context
    → State
    → List Evidence
    → Option StopReason
    → TransitionResult × List Event
transition bus now c target evidence stop_reason =
    let r = attempt now c target evidence stop_reason in
    (r, if r.accepted then publish bus c r.context else [])

-- What `transition_or_raise` raises.
pub data Raised : Type 0 where
  illegal_transition : State → State → Raised
  value_error : String → Raised

raise_code : Context → State → Option String → Raised
raise_code c target none = value_error "None"
raise_code c target (some code) =
    if str_eq code "illegal_transition" then illegal_transition c.state target else value_error code

-- `transition_or_raise`
unfoldable pub transition_or_raise :
    Option Bus
    → ℕ
    → Context
    → State
    → List Evidence
    → Option StopReason
    → Result Raised Context × List Event
unfolding raise_code
transition_or_raise bus now c target evidence stop_reason =
    let (r, events) = transition bus now c target evidence stop_reason in
    (if r.accepted then ok r.context else err (raise_code c target r.error_code), events)
