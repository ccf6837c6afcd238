-- ===== src/Session/State.antt =====
-- The attributes of `ExecutionSessionRuntime` of src/eag/session/runtime.py, and what its calls share.
-- The published events are a list, the latest first, and their handlers are taken to return.
use eag.Prelude.{
  ℕ, Bool, false, not, Option, none, some, List, [], ◌∷◌, String, Result, ok, ◌>>=◌, guard, any,
}
use eag.Prelude.Int.{ℤ, pos, sub_ℕ}
use eag.Session.Models.{
  SessionState, created, same_state, TimelineEventType, session_started, TimelineEntry,
  FailureRecord, ChangeSet, SessionError, finalized_error, state_error, record_entry,
}
use eag.Session.Metrics.{SessionMetrics, calculate}

-- The events of events.py, all for the runtime's session.
pub data SessionEvent : Type 0 where
  created_event started_event paused_event resumed_event completed_event cancelled_event
        failed_event :
      SessionEvent
  changeset_attached failure_recorded_event : String → SessionEvent
  metrics_updated : SessionMetrics → SessionEvent

-- The readings of the clock in a call: for the field that it sets, for the entry of the timeline, and
-- for the metrics.
pub record Readings : Type 0 where
  pub moment : ℕ
  pub entry : ℕ
  pub end : ℕ

pub record SessionRuntime : Type 0 where
  pub id : String
  pub workspace : String
  pub state : SessionState
  pub started_at : Option ℕ
  pub completed_at : Option ℕ
  pub timeline : List TimelineEntry
  pub failures : List FailureRecord
  pub changesets : List ChangeSet
  pub finalized : Bool
  pub events : List SessionEvent

-- `__init__`
unfoldable pub new_runtime : String → String → ℕ → SessionRuntime
new_runtime id workspace now = record {
  id = id;
  workspace = workspace;
  state = created;
  started_at = none;
  completed_at = none;
  timeline =
      record_entry
        (record {
          timestamp = now;
          event_type = session_started;
          message = "Session runtime created";
          reference_id = some id;
        })
        [];
  failures = [];
  changesets = [];
  finalized = false;
  events = created_event ∷ [];
}

abbrev pub ensure_not_finalized : SessionRuntime → Result SessionError (Unit {0})
ensure_not_finalized rt = guard (not rt.finalized) finalized_error

abbrev pub ensure_state : SessionRuntime → List SessionState → Result SessionError (Unit {0})
ensure_state rt allowed = guard (any (same_state rt.state) allowed) (state_error rt.state allowed)

-- `self._timeline.record` and the event that follows it.
abbrev pub note :
    ℕ → TimelineEventType → String → Option String → SessionEvent → SessionRuntime → SessionRuntime
note now event_type message reference_id event rt = record rt {
  timeline =
      record_entry
        (record {
          timestamp = now;
          event_type = event_type;
          message = message;
          reference_id = reference_id;
        })
        rt.timeline;
  events = event ∷ rt.events;
}

abbrev pub duration_until : Option ℕ → Option ℕ → ℕ → ℤ
duration_until none completed_at now = pos 0
duration_until (some started) none now = sub_ℕ now started
duration_until (some started) (some ended) now = sub_ℕ ended started

-- `_update_metrics`
unfoldable pub update_metrics : ℕ → SessionRuntime → Result SessionError SessionRuntime
update_metrics now rt = do
  metrics ← calculate rt.changesets rt.failures (duration_until rt.started_at rt.completed_at now)
  ok (record rt { events = metrics_updated metrics ∷ rt.events })
