-- ===== src/Session/Tests.antt =====
-- A session with one failure that is not recoverable, and the theorem at it.
use eag.Prelude.{◌≡◌, refl, ℕ, false, Option, none, some, List, [], ◌∷◌, Result, ok, err}
use eag.Session.Models.{SessionError, execution, error}
use eag.Session.Metrics.{calculate, metrics_of, health_score}
use eag.Session.Record.{ExecutionSession, make_session}
use eag.Session.State.{Readings, SessionRuntime, new_runtime, update_metrics}
use eag.Session.Runtime.{FailureArguments, start, pause, resume, record_failure, complete, finalize}
use eag.Session.Runtime.Runs.{
  Operation, starting, recording, completing, pausing, resuming, perform, perform_all,
}
use eag.Session.Runtime.Finalization.{finalization}
use eag.Session.Runtime.Histories.{finalize_exact}

abbrev at : ℕ → Readings
at n = record { moment = n; entry = n; end = n }

abbrev broken : FailureArguments
broken = record {
  uuid = "f1";
  component = "runner";
  message = "broken";
  recoverable = false;
  category = execution;
  severity = error;
  exception_type = none;
}

abbrev history : List Operation
history = starting (at 2) ∷ recording (at 3) broken ∷ completing (at 4) ∷ []

all_code : Unit {0}
unfolding new_runtime perform start record_failure complete finalize update_metrics calculate
    metrics_of health_score make_session
all_code = tt

abbrev result_is : Result SessionError (SessionRuntime × ExecutionSession) → Option ℕ
result_is (err e) = none
result_is (ok answer) = some answer.1.metrics.health_score

score_of_history : result_is (finalize (perform_all history (new_runtime "s" "/w" 1))) ≡ some 90
unfolding all_code
score_of_history = refl

-- A clock that goes back by one entry behind the creation is not noticed.
abbrev late_history : List Operation
late_history = starting (at 9) ∷ pausing (at 3) ∷ resuming (at 4) ∷ completing (at 4) ∷ []

back_unnoticed : result_is (finalize (perform_all late_history (new_runtime "s" "/w" 1))) ≡ some 100
unfolding all_code pause resume
back_unnoticed = refl

finalize_exact_example :
    finalize (perform_all history (new_runtime "s" "/w" 1))
    ≡ finalization (perform_all history (new_runtime "s" "/w" 1))
finalize_exact_example = finalize_exact "s" "/w" 1 history refl
