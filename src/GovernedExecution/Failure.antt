-- ===== src/GovernedExecution/Failure.antt =====
-- The `ValueError`s that src/eag/governed_execution/models.py raises, and their messages.
use Prim.Native.String.{◌++◌}
use eag.Prelude.{String}

pub data Field : Type 0 where
  max_iterations max_mutations max_verifications iterations_used mutations_used verifications_used
        execution_id run_id goal reference_id :
      Field

-- One constructor for each `raise ValueError`.
pub data Failure : Type 0 where
  reason_not_terminal reason_missing reason_not_success reason_not_aborted reason_not_failure :
      Failure
  not_positive not_non_negative empty_text : Field → Failure
  iterations_over mutations_over verifications_over : Failure
  iteration_exhausted mutation_exhausted verification_exhausted : Failure
  bad_sequence bad_iteration : Failure
  history_sequence history_origin history_illegal history_terminal history_iteration : Failure
  last_state last_iteration budget_iteration budget_mutations budget_verifications last_evidence
        last_reason reason_left :
      Failure
  initial_state initial_iteration initial_mutations initial_verifications initial_evidence
        initial_reason :
      Failure

abbrev field_name : Field → String
field_name max_iterations = "max_iterations"
field_name max_mutations = "max_mutations"
field_name max_verifications = "max_verifications"
field_name iterations_used = "iterations_used"
field_name mutations_used = "mutations_used"
field_name verifications_used = "verifications_used"
field_name execution_id = "execution_id"
field_name run_id = "run_id"
field_name goal = "goal"
field_name reference_id = "reference_id"

-- `str(error)`
unfoldable pub message : Failure → String
message reason_not_terminal = "stop_reason is only legal for a terminal state"
message reason_missing = "terminal transition requires a stop_reason"
message reason_not_success = "completed state requires success stop reason"
message reason_not_aborted = "aborted state requires user_aborted stop reason"
message reason_not_failure = "failed state requires a failure stop reason"
message (not_positive f) = field_name f ++ " must be a positive integer"
message (not_non_negative f) = field_name f ++ " must be a non-negative integer"
message (empty_text f) = field_name f ++ " cannot be empty"
message iterations_over = "iterations_used cannot exceed max_iterations"
message mutations_over = "mutations_used cannot exceed max_mutations"
message verifications_over = "verifications_used cannot exceed max_verifications"
message iteration_exhausted = "iteration budget is exhausted"
message mutation_exhausted = "mutation budget is exhausted"
message verification_exhausted = "verification budget is exhausted"
message bad_sequence = "sequence must be a positive integer"
message bad_iteration = "iteration must be a non-negative integer"
message history_sequence = "history sequence must be contiguous and start at one"
message history_origin = "history transitions must originate at created and remain contiguous"
message history_illegal = "history contains an illegal transition"
message history_terminal = "terminal history state cannot have additional transitions"
message history_iteration = "history iteration must match the recorded lifecycle"
message last_state = "history terminal state must equal current state"
message last_iteration = "history iteration must equal current iteration"
message budget_iteration = "iteration must equal the consumed iteration budget"
message budget_mutations = "mutation budget must equal legitimate mutating entries"
message budget_verifications = "verification budget must equal legitimate verifying entries"
message last_evidence = "context evidence must exactly equal flattened ledger evidence"
message last_reason = "terminal context stop_reason must match the final ledger record"
message reason_left = "stop_reason requires a terminal state"
message initial_state = "non-created context requires a valid transition history"
message initial_iteration = "created context cannot consume iteration budget"
message initial_mutations = "created context cannot consume mutation budget"
message initial_verifications = "created context cannot consume verification budget"
message initial_evidence = "created context cannot contain ledger evidence"
message initial_reason = "created context cannot have a stop_reason"
