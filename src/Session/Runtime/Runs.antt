-- ===== src/Session/Runtime/Runs.antt =====
-- Histories of calls of src/eag/session/runtime.py, those that raise included.
use eag.Prelude.{
  ℕ, ◌≡◌, refl, sym, ◌∙◌, Bool, true, false, not, ◌&&◌, List, [], ◌∷◌, ◌++◌, String, Result, ok,
  err, ◌>>=◌, ◌>>◌, guard, all, leb, ◌==◌, arith, ok-injective,
}
use eag.Session.Models.{TimelineEntry, ChangeSet, SessionError, finalized_error, record_entry}
use eag.Session.Metrics.{metrics_of, calculate_lem}
use eag.Session.Record.{check_times}
use eag.Session.State.{
  SessionRuntime, metrics_updated, Readings, new_runtime, duration_until, update_metrics,
}
use eag.Session.Runtime.{
  FailureArguments, start, pause, resume, record_failure, attach_changeset, complete, cancel, fail,
  finalize,
}

pub data Operation : Type 0 where
  starting pausing resuming completing cancelling failing : Readings → Operation
  recording : Readings → FailureArguments → Operation
  attaching : Readings → ChangeSet → Operation
  finalizing : Operation

unfoldable pub perform : Operation → SessionRuntime → Result SessionError SessionRuntime
perform (starting t) rt = start t rt
perform (pausing t) rt = pause t rt
perform (resuming t) rt = resume t rt
perform (completing t) rt = complete t rt
perform (cancelling t) rt = cancel t rt
perform (failing t) rt = fail t rt
perform (recording t f) rt = record_failure t f rt
perform (attaching t c) rt = attach_changeset t c rt
perform finalizing rt = finalize rt >>= λ answer. ok answer.0

-- The runtime behind a call.
abbrev pub after : SessionRuntime → Result SessionError SessionRuntime → SessionRuntime
after rt (ok rt') = rt'
after rt (err e) = rt

abbrev pub perform_all : List Operation → SessionRuntime → SessionRuntime
perform_all [] rt = rt
perform_all (op ∷ ops) rt = perform_all ops (after rt (perform op rt))

-- The clock gives a call no time before another for its entry.
abbrev pub is_late : ℕ → Operation → Bool
is_late t0 (starting t) = leb t0 t.entry
is_late t0 (pausing t) = leb t0 t.entry
is_late t0 (resuming t) = leb t0 t.entry
is_late t0 (completing t) = leb t0 t.entry
is_late t0 (cancelling t) = leb t0 t.entry
is_late t0 (failing t) = leb t0 t.entry
is_late t0 (recording t f) = leb t0 t.entry
is_late t0 (attaching t c) = leb t0 t.entry
is_late t0 finalizing = true

-- A timeline that begins at a time, with no entry before it.
abbrev pub begins_at : ℕ → List TimelineEntry → Bool
begins_at t0 [] = false
begins_at t0 (e ∷ rest) = e.timestamp == t0 && all (λ x. leb t0 x.timestamp) rest

-- The times fit the state, and no entry is earlier than the creation.
pub record IsValid (t0 : ℕ) (rt : SessionRuntime) : Type 0 where
  pub times : check_times rt.state rt.started_at rt.completed_at ≡ ok tt
  pub begun : begins_at t0 rt.timeline ≡ true

pub new_runtime-IsValid :
    (id workspace : String) (t0 : ℕ) → IsValid t0 (new_runtime id workspace t0)
unfolding new_runtime
new_runtime-IsValid id workspace t0 = record { times = refl; begun = ground arith }

all-append :
    (t0 : ℕ) (e : TimelineEntry) (l : List TimelineEntry)
    → leb t0 e.timestamp ≡ true
    → all (λ x. leb t0 x.timestamp) l ≡ true
    → all (λ x. leb t0 x.timestamp) (l ++ e ∷ []) ≡ true
all-append t0 e [] h v = ground (arith, h)
all-append t0 e (x ∷ l) h v = ground (arith, v, all-append t0 e l h)

pub begins_at-record_entry :
    (t0 : ℕ) (e : TimelineEntry) (l : List TimelineEntry)
    → leb t0 e.timestamp ≡ true
    → begins_at t0 l ≡ true
    → begins_at t0 (record_entry e l) ≡ true
begins_at-record_entry t0 e [] h v = cc
begins_at-record_entry t0 e (x ∷ l) h v = ground (arith, v, all-append t0 e l h)

-- What the metrics leave of the runtime.
abbrev pub metered : ℕ → SessionRuntime → SessionRuntime
metered now rt = record rt {
  events =
      metrics_updated
        (metrics_of rt.changesets rt.failures (duration_until rt.started_at rt.completed_at now))
      ∷ rt.events;
}

update_metrics_lem : (now : ℕ) (rt : SessionRuntime) → update_metrics now rt ≡ ok (metered now rt)
unfolding update_metrics
update_metrics_lem now rt =
    rw (calculate_lem rt.changesets rt.failures (duration_until rt.started_at rt.completed_at now))
      refl

pub guarded :
    (f : Bool) (b : Bool) (e : SessionError) (now : ℕ) (q rt : SessionRuntime)
    → (guard (not f) finalized_error >> (guard b e >> update_metrics now q)) ≡ ok rt
    → (b ≡ true) × (rt ≡ metered now q)
guarded true b e now q rt h = cc
guarded false false e now q rt h = cc
guarded false true e now q rt h = (refl, ok-injective (sym h ∙ update_metrics_lem now q))
