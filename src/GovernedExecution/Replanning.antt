-- ===== src/GovernedExecution/Replanning.antt =====
-- src/eag/governed_execution/replanning.py. Of the reflection and of the memory evidence the fields
-- that it reads are kept. `evidence_ref` is left out: the state machine takes any evidence.
pub mod Recovery
pub mod Tests
use text.Mathlib.Text.{◌==◌ as str_eq}
use eag.Prelude.{
  ℕ, Bool, true, false, not, ◌&&◌, ◌||◌, List, [], ◌∷◌, String, Result, ok, err, ◌>>=◌, ◌>>◌, guard,
  if◌then◌else◌, leb, ltb, ◌==◌, is_blank,
}
use eag.Prelude.Int.{ℤ, pos, negsuc}
use eag.GovernedExecution.State.{State, is_terminal, same_state}
use eag.GovernedExecution.Budget.{
  iterations_remaining, mutations_remaining, verifications_remaining,
}
use eag.GovernedExecution.Ledger.{Context}

-- `VerificationStatus` and `ObjectiveStatus` of verification.py
pub data VerificationStatus : Type 0 where
  passed failed not_run : VerificationStatus

pub data ObjectiveStatus : Type 0 where
  satisfied not_satisfied : ObjectiveStatus

-- `GovernedMemoryProvenance` of reflection.py
pub record Provenance : Type 0 where
  pub execution_id : String
  pub run_id : String
  pub iteration : ℕ
  pub receipt_id : String
  pub verification_id : String
  pub reflection_id : String
  pub context_artifact_id : String
  pub context_fingerprint : String
  pub policy_version : String
  pub contract_version : String

-- The dataclass's `==`.
unfoldable pub same_provenance : Provenance → Provenance → Bool
same_provenance a b =
    str_eq a.execution_id b.execution_id
    && (str_eq a.run_id b.run_id
        && (a.iteration == b.iteration
            && (str_eq a.receipt_id b.receipt_id
                && (str_eq a.verification_id b.verification_id
                    && (str_eq a.reflection_id b.reflection_id
                        && (str_eq a.context_artifact_id b.context_artifact_id
                            && (str_eq a.context_fingerprint b.context_fingerprint
                                && (str_eq a.policy_version b.policy_version
                                    && str_eq a.contract_version b.contract_version))))))))

-- `GovernedReflectionOutcome`, with its input and the identifier of its report.
pub record Reflection : Type 0 where
  pub provenance : Provenance
  pub report_id : String
  pub verification : VerificationStatus
  pub objective : ObjectiveStatus
  pub decision_id : String
  pub proposal_id : String
  pub authorization_id : String

-- `GovernedMemoryEvidence`
pub record Memory : Type 0 where
  pub provenance : Provenance
  pub reflection_id : String

pub data ReplanningAction : Type 0 where
  continue_with_fresh_decision fail abort : ReplanningAction

pub data ReplanningReason : Type 0 where
  eligible_verification_failure second_iteration_verification_failure iteration_limit
        mutation_capacity verification_capacity terminal_context ineligible_verification :
      ReplanningReason

-- `ReplanningError`, by what its message names.
pub data ReplanningError : Type 0 where
  not_replanning bad_iteration : ReplanningError
  empty_text mismatch stale : String → ReplanningError

pub record ReplanningInput : Type 0 where
  pub execution_context : Context
  pub reflection : Reflection
  pub memory : Memory
  pub previous_decision_id : String
  pub previous_proposal_id : String
  pub previous_authorization_id : String
  pub previous_context_artifact_id : String

abbrev pub non_blank : String → String → Result ReplanningError (Unit {0})
non_blank value name = guard (not (is_blank value)) (empty_text name)

abbrev pub equal : String → String → String → Result ReplanningError (Unit {0})
equal a b name = guard (str_eq a b) (mismatch name)

-- `ReplanningInput.__post_init__`
unfoldable pub make_input : ReplanningInput → Result ReplanningError ReplanningInput
make_input i = do
  guard (same_state i.execution_context.state State.replanning) not_replanning
  non_blank i.previous_decision_id "previous_decision_id"
  non_blank i.previous_proposal_id "previous_proposal_id"
  non_blank i.previous_authorization_id "previous_authorization_id"
  non_blank i.previous_context_artifact_id "previous_context_artifact_id"
  equal i.reflection.provenance.execution_id i.execution_context.execution_id "execution"
  equal i.reflection.provenance.run_id i.execution_context.run_id "run"
  guard (i.reflection.provenance.iteration == i.execution_context.iteration) (mismatch "iteration")
  guard (same_provenance i.memory.provenance i.reflection.provenance) (mismatch "memory provenance")
  equal i.memory.reflection_id i.reflection.report_id "reflection report"
  equal i.previous_decision_id i.reflection.decision_id "previous decision"
  equal i.previous_proposal_id i.reflection.proposal_id "previous proposal"
  equal i.previous_authorization_id i.reflection.authorization_id "previous authorization"
  equal i.previous_context_artifact_id i.reflection.provenance.context_artifact_id
      "previous context artifact"
  ok i

pub record ReplanningOutcome : Type 0 where
  pub action : ReplanningAction
  pub reason_code : ReplanningReason
  pub execution_id : String
  pub iteration : ℕ
  pub reflection_id : String
  pub planning_decision_id : String

-- `ReplanningOutcome.__post_init__`
unfoldable pub make_outcome : ReplanningOutcome → Result ReplanningError ReplanningOutcome
make_outcome o = do
  non_blank o.execution_id "execution_id"
  non_blank o.reflection_id "reflection_id"
  guard (leb 1 o.iteration) bad_iteration
  ok o

-- `remaining < 1`
abbrev pub is_spent : ℤ → Bool
is_spent (pos n) = ltb n 1
is_spent (negsuc n) = true

abbrev pub is_failure : VerificationStatus → Bool
is_failure failed = true
is_failure _ = false

abbrev pub is_unsatisfied : ObjectiveStatus → Bool
is_unsatisfied satisfied = false
is_unsatisfied not_satisfied = true

-- The `if` chain of `decide`.
unfoldable pub choose : Context → Reflection → ReplanningAction × ReplanningReason
choose c r =
    if is_terminal c.state
    then (fail, terminal_context)
    else if not (is_failure r.verification) || not (is_unsatisfied r.objective)
    then (fail, ineligible_verification)
    else if leb 2 c.iteration
    then (fail, second_iteration_verification_failure)
    else if is_spent (iterations_remaining c.budget)
    then (fail, iteration_limit)
    else if is_spent (mutations_remaining c.budget)
    then (fail, mutation_capacity)
    else if is_spent (verifications_remaining c.budget)
    then (fail, verification_capacity)
    else (continue_with_fresh_decision, eligible_verification_failure)

-- The arguments of the constructor at the end of `decide`.
abbrev pub outcome_of : ReplanningInput → String → ReplanningOutcome
outcome_of i planning_decision_id =
    let choice = choose i.execution_context i.reflection in
    record {
      action = choice.0;
      reason_code = choice.1;
      execution_id = i.execution_context.execution_id;
      iteration = i.execution_context.iteration;
      reflection_id = i.reflection.report_id;
      planning_decision_id = planning_decision_id;
    }

-- `ReplanningPolicy.decide`
unfoldable pub decide : ReplanningInput → String → Result ReplanningError ReplanningOutcome
decide i planning_decision_id = make_outcome (outcome_of i planning_decision_id)

-- `FreshIterationArtifacts`
pub record Artifacts : Type 0 where
  pub context_artifact_id : String
  pub decision_request_id : String
  pub decision_id : String
  pub proposal_id : String
  pub authorization_id : String
  pub receipt_id : String
  pub verification_id : String
  pub context_fingerprint : String

-- Its `__post_init__`.
unfoldable pub make_artifacts : Artifacts → Result ReplanningError Artifacts
make_artifacts a = do
  non_blank a.context_artifact_id "context_artifact_id"
  non_blank a.decision_request_id "decision_request_id"
  non_blank a.decision_id "decision_id"
  non_blank a.proposal_id "proposal_id"
  non_blank a.authorization_id "authorization_id"
  non_blank a.receipt_id "receipt_id"
  non_blank a.verification_id "verification_id"
  non_blank a.context_fingerprint "context_fingerprint"
  ok a

abbrev pub fresh : String → String → String → Result ReplanningError (Unit {0})
fresh value old name = guard (not (str_eq value old)) (stale name)

-- `ReplanningPolicy.validate_fresh_iteration`
unfoldable pub validate_fresh_iteration :
    ReplanningInput → Artifacts → Result ReplanningError (Unit {0})
validate_fresh_iteration i a = do
  fresh a.context_artifact_id i.previous_context_artifact_id "context_artifact_id"
  fresh a.decision_id i.previous_decision_id "decision_id"
  fresh a.proposal_id i.previous_proposal_id "proposal_id"
  fresh a.authorization_id i.previous_authorization_id "authorization_id"
  fresh a.receipt_id i.reflection.provenance.receipt_id "receipt_id"
  fresh a.verification_id i.reflection.provenance.verification_id "verification_id"
  fresh a.context_fingerprint i.reflection.provenance.context_fingerprint "context_fingerprint"
