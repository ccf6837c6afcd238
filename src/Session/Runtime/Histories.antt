-- ===== src/Session/Runtime/Histories.antt =====
-- Every history of calls of src/eag/session/runtime.py leaves a valid runtime.
use eag.Prelude.{
  ℕ, ◌≡◌, refl, sym, ap, ◌∙◌, Bool, true, false, Option, none, some, List, [], ◌∷◌, String, Result,
  ok, err, ◌>>=◌, any, all, leb, if◌then◌else◌, arith, ok-injective,
}
use eag.Session.Models.{
  SessionState, created, running, paused, completed, failed, cancelled, same_state,
  TimelineEventType, SessionError,
}
use eag.Session.Record.{check_times, ExecutionSession}
use eag.Session.State.{SessionRuntime, SessionEvent, new_runtime, note}
use eag.Session.Runtime.{
  start, pause, resume, record_failure, attach_changeset, complete, cancel, fail, finalize,
}
use eag.Session.Runtime.Runs.{
  Operation, starting, pausing, resuming, completing, cancelling, failing, recording, attaching,
  finalizing, perform, perform_all, after, is_late, begins_at, IsValid, new_runtime-IsValid,
  begins_at-record_entry, metered, guarded,
}
use eag.Session.Runtime.Finalization.{finalization, finalize_lem, over_states}

times_start :
    (s : SessionState) (a b : Option ℕ) (m : ℕ)
    → any (same_state s) (created ∷ []) ≡ true
    → check_times s a b ≡ ok tt
    → check_times running (some m) b ≡ ok tt
times_start created none none m h v = refl
times_start created none (some n) m h v = cc
times_start created (some k) b m h v = cc
times_start _ a b m h v = cc

times_move :
    (s r : SessionState) (a b : Option ℕ)
    → any (same_state s) (running ∷ paused ∷ []) ≡ true
    → any (same_state r) (running ∷ paused ∷ []) ≡ true
    → check_times s a b ≡ ok tt
    → check_times r a b ≡ ok tt
times_move running running a b h g v = v
times_move running paused a b h g v = v
times_move paused running a b h g v = v
times_move paused paused a b h g v = v
times_move s r a b h g v = cc

times_close :
    (s r : SessionState) (a b : Option ℕ) (m : ℕ)
    → any (same_state s) (running ∷ paused ∷ []) ≡ true
    → any (same_state r) (completed ∷ failed ∷ cancelled ∷ []) ≡ true
    → check_times s a b ≡ ok tt
    → check_times r a (some m) ≡ ok tt
times_close running completed (some n) b m h g v = refl
times_close running failed (some n) b m h g v = refl
times_close running cancelled (some n) b m h g v = refl
times_close paused completed (some n) b m h g v = refl
times_close paused failed (some n) b m h g v = refl
times_close paused cancelled (some n) b m h g v = refl
times_close s r a b m h g v = cc

noted-IsValid :
    (t0 now end : ℕ) (kind : TimelineEventType) (message : String) (reference_id : Option String)
    → (event : SessionEvent) (rt : SessionRuntime) → leb t0 now ≡ true
    → check_times rt.state rt.started_at rt.completed_at ≡ ok tt
    → begins_at t0 rt.timeline ≡ true
    → IsValid t0 (metered end (note now kind message reference_id event rt))
noted-IsValid t0 now end kind message reference_id event rt late times begun = record {
  times = times;
  begun = begins_at-record_entry t0 _ rt.timeline late begun;
}

answered :
    (f b : Bool) (d e : SessionError) (q : SessionRuntime × ExecutionSession) (rt : SessionRuntime)
    → ((if f then err d else if b then ok q else err e) >>= λ answer. ok answer.0) ≡ ok rt
    → rt ≡ q.0
answered true b d e q rt h = cc
answered false true d e q rt h = ok-injective (sym h)
answered false false d e q rt h = cc

finalized-IsValid :
    (t0 : ℕ) (rt rt' : SessionRuntime)
    → IsValid t0 rt
    → perform finalizing rt ≡ ok rt'
    → IsValid t0 rt'
unfolding perform finalize
finalized-IsValid t0 rt rt' v h =
    let first : SessionRuntime × ExecutionSession → Result SessionError SessionRuntime =
      λ answer. ok answer.0 in
    let e =
      answered rt.finalized (any (same_state rt.state) over_states) _ _ _ rt'
        (ap (λ r. r >>= first) (sym (finalize_lem t0 rt v)) ∙ h) in
    rw e (record { times = v.times; begun = v.begun })

pub perform-IsValid :
    (t0 : ℕ) (op : Operation) (rt rt' : SessionRuntime)
    → IsValid t0 rt
    → is_late t0 op ≡ true
    → perform op rt ≡ ok rt'
    → IsValid t0 rt'
unfolding perform start pause resume record_failure attach_changeset complete cancel fail
perform-IsValid t0 (starting t) rt rt' v late h =
    let (b, e) = guarded rt.finalized _ _ t.end _ rt' h in
    rw e (
      noted-IsValid t0 t.entry t.end _ _ _ _ _ late
        (times_start rt.state rt.started_at rt.completed_at t.moment b v.times) v.begun)
perform-IsValid t0 (pausing t) rt rt' v late h =
    let (b, e) = guarded rt.finalized _ _ t.end _ rt' h in
    rw e (
      noted-IsValid t0 t.entry t.end _ _ _ _ _ late
        (times_move rt.state paused rt.started_at rt.completed_at (ground (arith, b)) refl v.times)
        v.begun)
perform-IsValid t0 (resuming t) rt rt' v late h =
    let (b, e) = guarded rt.finalized _ _ t.end _ rt' h in
    rw e (
      noted-IsValid t0 t.entry t.end _ _ _ _ _ late
        (times_move rt.state running rt.started_at rt.completed_at (ground (arith, b)) refl v.times)
        v.begun)
perform-IsValid t0 (recording t f) rt rt' v late h =
    let (b, e) = guarded rt.finalized _ _ t.end _ rt' h in
    rw e (noted-IsValid t0 t.entry t.end _ _ _ _ _ late v.times v.begun)
perform-IsValid t0 (attaching t c) rt rt' v late h =
    let (b, e) = guarded rt.finalized _ _ t.end _ rt' h in
    rw e (noted-IsValid t0 t.entry t.end _ _ _ _ _ late v.times v.begun)
perform-IsValid t0 (completing t) rt rt' v late h =
    let (b, e) = guarded rt.finalized _ _ t.end _ rt' h in
    rw e (
      noted-IsValid t0 t.entry t.end _ _ _ _ _ late
        (times_close rt.state completed rt.started_at rt.completed_at t.moment b refl v.times)
        v.begun)
perform-IsValid t0 (cancelling t) rt rt' v late h =
    let (b, e) = guarded rt.finalized _ _ t.end _ rt' h in
    rw e (
      noted-IsValid t0 t.entry t.end _ _ _ _ _ late
        (times_close rt.state cancelled rt.started_at rt.completed_at t.moment b refl v.times)
        v.begun)
perform-IsValid t0 (failing t) rt rt' v late h =
    let (b, e) = guarded rt.finalized _ _ t.end _ rt' h in
    rw e (
      noted-IsValid t0 t.entry t.end _ _ _ _ _ late
        (times_close rt.state failed rt.started_at rt.completed_at t.moment b refl v.times) v.begun)
perform-IsValid t0 finalizing rt rt' v late h = finalized-IsValid t0 rt rt' v h

perform_all-IsValid :
    (t0 : ℕ) (ops : List Operation) (rt : SessionRuntime)
    → IsValid t0 rt
    → all (is_late t0) ops ≡ true
    → IsValid t0 (perform_all ops rt)
perform_all-IsValid t0 [] rt v late = v
perform_all-IsValid t0 (op ∷ ops) rt v late =
    perform_all-IsValid t0 ops (after rt (perform op rt)) (stays (perform op rt) refl)
      (ground (arith, late))
  where
    stays : (r : Result SessionError SessionRuntime) → perform op rt ≡ r → IsValid t0 (after rt r)
    stays (err e) h = v
    stays (ok rt') h = perform-IsValid t0 op rt rt' v (ground (arith, late)) h

-- Behind any history of calls on a new session, where the clock gives no entry of the timeline a
-- time before the creation, finalize raises if the session is finalized already or is not completed,
-- failed or cancelled, and otherwise finalizes it and answers its record: none of the tests of the
-- record and of its metrics fails.
pub finalize_exact :
    (id workspace : String) (t0 : ℕ) (ops : List Operation)
    → all (is_late t0) ops ≡ true
    → finalize (perform_all ops (new_runtime id workspace t0))
      ≡ finalization (perform_all ops (new_runtime id workspace t0))
finalize_exact id workspace t0 ops late =
    finalize_lem t0 (perform_all ops (new_runtime id workspace t0)) (
      perform_all-IsValid t0 ops (new_runtime id workspace t0) (new_runtime-IsValid id workspace t0)
        late)
