-- ===== src/Session/Record.antt =====
-- `ExecutionSession` of src/eag/session/models.py: the record that a finished session leaves.
use eag.Prelude.{
  ℕ, Bool, true, false, not, ◌&&◌, Option, none, some, List, [], ◌∷◌, String, Result, ok, ◌>>◌,
  guard, length, all, leb, ◌==◌,
}
use eag.Session.Models.{
  SessionState, created, running, paused, SessionResult, TimelineEntry, FailureRecord, ChangeSet,
  SessionError, bad_created, bad_running, bad_over, bad_changeset_count, bad_failure_count,
  bad_timeline,
}
use eag.Session.Metrics.{SessionMetrics}

pub record ExecutionSession : Type 0 where
  pub id : String
  pub state : SessionState
  pub workspace : String
  pub started_at : Option ℕ
  pub completed_at : Option ℕ
  pub changesets : List ChangeSet
  pub timeline : List TimelineEntry
  pub failures : List FailureRecord
  pub metrics : SessionMetrics
  pub result : SessionResult

abbrev pub is_none : {A : Type 0} → Option A → Bool
is_none none = true
is_none (some a) = false

-- The tests of the two times, by the state.
abbrev pub check_times : SessionState → Option ℕ → Option ℕ → Result SessionError (Unit {0})
check_times created started ended = guard (is_none started && is_none ended) bad_created
check_times running started ended = guard (not (is_none started) && is_none ended) bad_running
check_times paused started ended = guard (not (is_none started) && is_none ended) bad_running
check_times _ started ended = guard (not (is_none started) && not (is_none ended)) bad_over

-- No entry is earlier than the first.
abbrev pub is_chronological : List TimelineEntry → Bool
is_chronological [] = true
is_chronological (first ∷ rest) = all (λ e. leb first.timestamp e.timestamp) (first ∷ rest)

-- `__post_init__`
unfoldable pub make_session : ExecutionSession → Result SessionError ExecutionSession
make_session s = do
  check_times s.state s.started_at s.completed_at
  guard (s.metrics.changeset_count == length s.changesets) bad_changeset_count
  guard (s.metrics.failure_count == length s.failures) bad_failure_count
  guard (is_chronological s.timeline) bad_timeline
  ok s
