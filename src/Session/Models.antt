-- ===== src/Session/Models.antt =====
-- src/eag/session: state.py, failures.py, timeline.py, events.py, errors.py and the parts of models.py
-- that they use. A `datetime` is a number of instants. Metadata and details of entries are left out,
-- as nothing reads them; of a change set the fields that the metrics read are kept, with its items as
-- texts.
use eag.Prelude.{ℕ, Bool, not, Option, List, [], ◌∷◌, ◌++◌, String, any, ◌==◌}

pub data SessionState : Type 0 where
  created running paused completed failed cancelled : SessionState

abbrev state_index : SessionState → ℕ
state_index created = 0
state_index running = 1
state_index paused = 2
state_index completed = 3
state_index failed = 4
state_index cancelled = 5

abbrev pub same_state : SessionState → SessionState → Bool
same_state s t = state_index s == state_index t

pub data SessionResult : Type 0 where
  success partial_success failure cancellation : SessionResult

pub data FailureCategory : Type 0 where
  execution approval filesystem git network model planner plugin internal unknown : FailureCategory

pub data FailureSeverity : Type 0 where
  info warning error critical : FailureSeverity

-- The members that the runtime records.
pub data TimelineEventType : Type 0 where
  session_started session_paused session_resumed session_completed session_failed changeset_created
        failure_recorded :
      TimelineEventType

pub record TimelineEntry : Type 0 where
  pub timestamp : ℕ
  pub event_type : TimelineEventType
  pub message : String
  pub reference_id : Option String

pub record FailureRecord : Type 0 where
  pub id : String
  pub timestamp : ℕ
  pub component : String
  pub category : FailureCategory
  pub severity : FailureSeverity
  pub message : String
  pub recoverable : Bool
  pub exception_type : Option String

pub record ChangeSet : Type 0 where
  pub id : String
  pub commands : List String
  pub files : List String
  pub tests : List String
  pub artifacts : List String

-- `SessionFinalizedError`, `SessionStateError` with what its message names, and the `ValueError`s.
pub data SessionError : Type 0 where
  finalized_error : SessionError
  state_error : (found : SessionState) (allowed : List SessionState) → SessionError
  bad_health_score bad_created bad_running bad_over bad_changeset_count bad_failure_count
        bad_timeline :
      SessionError

-- `SessionTimeline.record`
abbrev pub record_entry : TimelineEntry → List TimelineEntry → List TimelineEntry
record_entry e entries = entries ++ e ∷ []

-- `FailureTracker`
abbrev pub record_failure_in : FailureRecord → List FailureRecord → List FailureRecord
record_failure_in f failures = failures ++ f ∷ []

abbrev pub has_unrecoverable : List FailureRecord → Bool
has_unrecoverable failures = any (λ f. not f.recoverable) failures
