-- ===== src/Session/Runtime.antt =====
-- The calls of `ExecutionSessionRuntime` of src/eag/session/runtime.py. The handlers of the event bus
-- are taken to return. A call that raises has then changed nothing, as the tests of the state come
-- first and the constructor of the metrics never raises.
-- What a call reads of the clock is its first argument. The recorder of change sets is left out:
-- the runtime only reads its identifier.
pub mod Runs
pub mod Finalization
pub mod Histories
use eag.Prelude.{
  ℕ, Bool, true, false, not, ◌&&◌, ◌||◌, Option, none, some, List, [], ◌∷◌, ◌++◌, String, Result,
  ok, err, ◌>>=◌, ◌>>◌, guard, any, if◌then◌else◌,
}
use eag.Prelude.Int.{ℤ, pos, sub_ℕ}
use Prim.Native.String.{◌++◌ as str_append}
use eag.Session.Models.{
  SessionState, created, running, paused, completed, failed, cancelled, same_state, SessionResult,
  success, partial_success, failure, cancellation, TimelineEventType, session_started,
  session_paused, session_resumed, session_completed, session_failed, changeset_created,
  failure_recorded, TimelineEntry, FailureRecord, FailureCategory, FailureSeverity, ChangeSet,
  SessionError, finalized_error, state_error, record_entry, record_failure_in, has_unrecoverable,
}
use eag.Session.Metrics.{SessionMetrics, calculate}
use eag.Session.Record.{ExecutionSession, make_session}
use eag.Session.State.{
  SessionEvent, created_event, started_event, paused_event, resumed_event, completed_event,
  cancelled_event, failed_event, changeset_attached, failure_recorded_event, metrics_updated,
  Readings, SessionRuntime, new_runtime, ensure_not_finalized, ensure_state, note, duration_until,
  update_metrics,
}

unfoldable pub start : Readings → SessionRuntime → Result SessionError SessionRuntime
start t rt = do
  ensure_not_finalized rt
  ensure_state rt (created ∷ [])
  update_metrics t.end (
      note t.entry session_started "Session started" none started_event
        (record rt { state = running; started_at = some t.moment }))

unfoldable pub pause : Readings → SessionRuntime → Result SessionError SessionRuntime
pause t rt = do
  ensure_not_finalized rt
  ensure_state rt (running ∷ [])
  update_metrics t.end (
      note t.entry session_paused "Session paused" none paused_event (record rt { state = paused }))

unfoldable pub resume : Readings → SessionRuntime → Result SessionError SessionRuntime
resume t rt = do
  ensure_not_finalized rt
  ensure_state rt (paused ∷ [])
  update_metrics t.end (
      note t.entry session_resumed "Session resumed" none resumed_event
        (record rt { state = running }))

-- The arguments of `record_failure`, with the identifier that the tracker makes.
pub record FailureArguments : Type 0 where
  pub uuid : String
  pub component : String
  pub message : String
  pub recoverable : Bool
  pub category : FailureCategory
  pub severity : FailureSeverity
  pub exception_type : Option String

unfoldable pub record_failure :
    Readings → FailureArguments → SessionRuntime → Result SessionError SessionRuntime
record_failure t f rt = do
  ensure_not_finalized rt
  ensure_state rt (running ∷ paused ∷ [])
  update_metrics t.end (
      note t.entry failure_recorded (str_append "Failure recorded: " f.message) (some f.uuid)
        (failure_recorded_event f.uuid)
        (record rt {
          failures =
              record_failure_in
                (record {
                  id = f.uuid;
                  timestamp = t.moment;
                  component = f.component;
                  category = f.category;
                  severity = f.severity;
                  message = f.message;
                  recoverable = f.recoverable;
                  exception_type = f.exception_type;
                })
                rt.failures;
        }))

unfoldable pub attach_changeset :
    Readings → ChangeSet → SessionRuntime → Result SessionError SessionRuntime
attach_changeset t changeset rt = do
  ensure_not_finalized rt
  ensure_state rt (running ∷ paused ∷ [])
  update_metrics t.end (
      note t.entry changeset_created "ChangeSet attached" (some changeset.id)
        (changeset_attached changeset.id)
        (record rt { changesets = rt.changesets ++ changeset ∷ [] }))

unfoldable pub complete : Readings → SessionRuntime → Result SessionError SessionRuntime
complete t rt = do
  ensure_not_finalized rt
  ensure_state rt (running ∷ paused ∷ [])
  update_metrics t.end (
      note t.entry session_completed "Session completed" none completed_event
        (record rt { state = completed; completed_at = some t.moment }))

unfoldable pub cancel : Readings → SessionRuntime → Result SessionError SessionRuntime
cancel t rt = do
  ensure_not_finalized rt
  ensure_state rt (running ∷ paused ∷ [])
  update_metrics t.end (
      note t.entry session_completed "Session cancelled" none cancelled_event
        (record rt { state = cancelled; completed_at = some t.moment }))

unfoldable pub fail : Readings → SessionRuntime → Result SessionError SessionRuntime
fail t rt = do
  ensure_not_finalized rt
  ensure_state rt (running ∷ paused ∷ [])
  update_metrics t.end (
      note t.entry session_failed "Session failed" none failed_event
        (record rt { state = failed; completed_at = some t.moment }))

-- The result, by the state.
abbrev pub result_of : SessionState → List FailureRecord → SessionResult
result_of completed failures = if not (has_unrecoverable failures) then success else partial_success
result_of failed failures = failure
result_of _ failures = cancellation

abbrev pub duration_between : Option ℕ → Option ℕ → ℤ
duration_between (some started) (some ended) = sub_ℕ ended started
duration_between _ _ = pos 0

unfoldable pub finalize : SessionRuntime → Result SessionError (SessionRuntime × ExecutionSession)
finalize rt = do
  ensure_not_finalized rt
  ensure_state rt (completed ∷ failed ∷ cancelled ∷ [])
  metrics ← calculate rt.changesets rt.failures (duration_between rt.started_at rt.completed_at)
  session ← make_session (record {
    id = rt.id;
    state = rt.state;
    workspace = rt.workspace;
    started_at = rt.started_at;
    completed_at = rt.completed_at;
    changesets = rt.changesets;
    timeline = rt.timeline;
    failures = rt.failures;
    metrics = metrics;
    result = result_of rt.state rt.failures;
  })
  ok (record rt { finalized = true }, session)
