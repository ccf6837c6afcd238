-- ===== src/Session/Runtime/Finalization.antt =====
-- `finalize` of src/eag/session/runtime.py on a valid runtime.
use eag.Prelude.{
  length, ==_refl, ==_iff, ℕ, ◌≡◌, refl, ap, ◌∙◌, Bool, true, false, not, List, [], ◌∷◌, Result, ok,
  err, ◌>>◌, guard, any, all, leb, if◌then◌else◌, arith,
}
use eag.Session.Models.{
  SessionState, completed, failed, cancelled, same_state, TimelineEntry, SessionError,
  finalized_error, state_error,
}
use eag.Session.Metrics.{metrics_of, calculate_lem}
use eag.Session.Record.{ExecutionSession, make_session, is_chronological}
use eag.Session.State.{SessionRuntime}
use eag.Session.Runtime.{finalize, result_of, duration_between}
use eag.Session.Runtime.Runs.{begins_at, IsValid}

-- The session record of a runtime.
abbrev pub session_of : SessionRuntime → ExecutionSession
session_of rt = record {
  id = rt.id;
  state = rt.state;
  workspace = rt.workspace;
  started_at = rt.started_at;
  completed_at = rt.completed_at;
  changesets = rt.changesets;
  timeline = rt.timeline;
  failures = rt.failures;
  metrics = metrics_of rt.changesets rt.failures (duration_between rt.started_at rt.completed_at);
  result = result_of rt.state rt.failures;
}

abbrev pub over_states : List SessionState
over_states = completed ∷ failed ∷ cancelled ∷ []

-- What `finalize` answers, by the state alone.
abbrev pub finalization : SessionRuntime → Result SessionError (SessionRuntime × ExecutionSession)
finalization rt =
    if rt.finalized
    then err finalized_error
    else if any (same_state rt.state) over_states
    then ok (record rt { finalized = true }, session_of rt)
    else err (state_error rt.state over_states)

begins_at-is_chronological :
    (t0 : ℕ) (l : List TimelineEntry) → begins_at t0 l ≡ true → is_chronological l ≡ true
begins_at-is_chronological t0 [] h = refl
begins_at-is_chronological t0 (e ∷ l) h =
    let first : e.timestamp ≡ t0 = (==_iff e.timestamp t0).0 (ground (arith, h)) in
    let rest : all (λ x. leb t0 x.timestamp) l ≡ true = ground (arith, h) in
    let none_before = ap (λ n. all (λ x. leb n x.timestamp) l) first ∙ rest in
    ground (arith, none_before)

make_session_lem :
    (t0 : ℕ) (rt : SessionRuntime)
    → IsValid t0 rt
    → make_session (session_of rt) ≡ ok (session_of rt)
unfolding make_session metrics_of
make_session_lem t0 rt v =
    rw
      (
        v.times,
        ==_refl (length rt.changesets),
        ==_refl (length rt.failures),
        begins_at-is_chronological t0 rt.timeline v.begun,
      )
      refl

finalize_cases :
    (f b : Bool) (e : SessionError)
    (answer : Result SessionError (SessionRuntime × ExecutionSession))
    → (guard (not f) finalized_error >> (guard b e >> answer))
      ≡ (if f then err finalized_error else if b then answer else err e)
finalize_cases true b e answer = refl
finalize_cases false true e answer = refl
finalize_cases false false e answer = refl

pub finalize_lem : (t0 : ℕ) (rt : SessionRuntime) → IsValid t0 rt → finalize rt ≡ finalization rt
unfolding finalize
finalize_lem t0 rt v =
    rw
      (
        calculate_lem rt.changesets rt.failures (duration_between rt.started_at rt.completed_at),
        make_session_lem t0 rt v,
      )
      (finalize_cases rt.finalized (any (same_state rt.state) over_states) _ _)
