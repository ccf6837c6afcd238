-- ===== src/Session/Metrics.antt =====
-- src/eag/session/metrics.py, and `SessionMetrics` of models.py. The runtime never gives a number of
-- warnings, so it is 0.
use eag.Prelude.{
  ℕ, ◌+◌, ◌-◌, ◌*◌, ◌≡◌, ◌≤◌, List, [], ◌∷◌, Result, ok, ◌>>◌, guard, length, keep, leb,
  if◌then◌else◌, arith,
}
use eag.Prelude.Int.{ℤ, pos, negsuc, sub_ℕ}
use eag.Session.Models.{FailureRecord, ChangeSet, SessionError, bad_health_score}

pub record SessionMetrics : Type 0 where
  pub changeset_count : ℕ
  pub command_count : ℕ
  pub file_count : ℕ
  pub test_count : ℕ
  pub artifact_count : ℕ
  pub failure_count : ℕ
  pub recoverable_failures : ℕ
  pub unrecoverable_failures : ℕ
  pub warning_count : ℕ
  pub error_count : ℕ
  pub duration : ℤ
  pub health_score : ℕ

-- `sum(... for cs in changesets)`
abbrev pub total : (ChangeSet → ℕ) → List ChangeSet → ℕ
total f [] = 0
total f (c ∷ l) = f c + total f l

abbrev pub recoverable_count : List FailureRecord → ℕ
recoverable_count failures = length (keep (λ f. f.recoverable) failures)

-- `max(0, min(100, score))`
abbrev clamp : ℤ → ℕ
clamp (pos n) = if leb n 100 then n else 100
clamp (negsuc n) = 0

unfoldable pub health_score : (warnings recoverable unrecoverable : ℕ) → ℕ
health_score warnings recoverable unrecoverable =
    clamp (sub_ℕ 100 (2 * warnings + 5 * recoverable + 10 * unrecoverable))

unfoldable pub metrics_of : List ChangeSet → List FailureRecord → ℤ → SessionMetrics
metrics_of changesets failures duration =
    let unrecoverable = length failures - recoverable_count failures in
    record {
      changeset_count = length changesets;
      command_count = total (λ c. length c.commands) changesets;
      file_count = total (λ c. length c.files) changesets;
      test_count = total (λ c. length c.tests) changesets;
      artifact_count = total (λ c. length c.artifacts) changesets;
      failure_count = length failures;
      recoverable_failures = recoverable_count failures;
      unrecoverable_failures = unrecoverable;
      warning_count = 0;
      error_count = unrecoverable;
      duration = duration;
      health_score = health_score 0 (recoverable_count failures) unrecoverable;
    }

-- `SessionMetricsCalculator.calculate`, with `__post_init__` of the metrics.
unfoldable pub calculate :
    List ChangeSet → List FailureRecord → ℤ → Result SessionError SessionMetrics
calculate changesets failures duration = do
  guard (leb (metrics_of changesets failures duration).health_score 100) bad_health_score
  ok (metrics_of changesets failures duration)

health_score-le : (w r u : ℕ) → health_score w r u ≤ 100
unfolding health_score
health_score-le w r u = ground arith

-- The metrics are always in their bounds.
pub calculate_lem :
    (changesets : List ChangeSet) (failures : List FailureRecord) (duration : ℤ)
    → calculate changesets failures duration ≡ ok (metrics_of changesets failures duration)
unfolding calculate metrics_of
calculate_lem changesets failures duration = ground (
  arith,
  health_score-le 0 (recoverable_count failures) (length failures - recoverable_count failures),
)
