-- ===== src/GovernedExecution/Replanning/Tests.antt =====
-- A first iteration whose verification failed, and the theorem on recovery at it.
use eag.Prelude.{ℕ, ◌≡◌, refl, none, [], ◌∷◌, ok, err, is_blank, arith}
use eag.GovernedExecution.State.{
  State, created, context_assembling, planning, authorizing, mutating, verifying, same_state,
  is_legal, is_terminal,
}
use eag.GovernedExecution.Reason.{validate_terminal_stop_reason}
use eag.GovernedExecution.Ledger.{
  Record, Context, make_context, validate_history, check_history, walk, check_record, check_end,
  same_all, same_reason,
}
use eag.GovernedExecution.Ledger.Validation.{make_context-IsGenuine}
use eag.GovernedExecution.Machine.Charging.{IsValid}
use eag.GovernedExecution.Replanning.{
  Provenance, ReplanningInput, failed, not_satisfied, make_input, same_provenance, Artifacts,
  validate_fresh_iteration, stale,
}
use eag.GovernedExecution.Replanning.Recovery.{IsReplanned, decide_lem}

abbrev record_of : ℕ → State → State → Record
record_of n from to = record {
  sequence = n;
  iteration = 1;
  from_state = from;
  to_state = to;
  occurred_at = n;
  reason = none;
  evidence = [];
}

abbrev first_round : Context
first_round = record {
  execution_id = "e";
  run_id = "r";
  goal = "g";
  state = State.replanning;
  iteration = 1;
  budget = record {
    max_iterations = 2;
    max_mutations = 2;
    max_verifications = 2;
    iterations_used = 1;
    mutations_used = 1;
    verifications_used = 1;
  };
  history =
      record_of 1 created context_assembling
      ∷ record_of 2 context_assembling planning
      ∷ record_of 3 planning State.deciding
      ∷ record_of 4 State.deciding State.proposing
      ∷ record_of 5 State.proposing authorizing
      ∷ record_of 6 authorizing mutating
      ∷ record_of 7 mutating verifying
      ∷ record_of 8 verifying State.reflecting
      ∷ record_of 9 State.reflecting State.replanning
      ∷ [];
  evidence = [];
  stop_reason = none;
}

first_round_made : make_context first_round ≡ ok first_round
unfolding make_context validate_history check_history walk check_record check_end same_state
    is_blank same_all same_reason is_legal is_terminal validate_terminal_stop_reason
first_round_made = refl

first_round-IsValid : IsValid first_round
first_round-IsValid = record {
  genuine = (make_context-IsGenuine first_round first_round first_round_made).0;
  within = omega arith;
}

abbrev provenance : Provenance
provenance = record {
  execution_id = "e";
  run_id = "r";
  iteration = 1;
  receipt_id = "m1";
  verification_id = "v1";
  reflection_id = "x1";
  context_artifact_id = "a1";
  context_fingerprint = "f1";
  policy_version = "1";
  contract_version = "1.0";
}

abbrev input : ReplanningInput
input = record {
  execution_context = first_round;
  reflection = record {
    provenance = provenance;
    report_id = "x1";
    verification = failed;
    objective = not_satisfied;
    decision_id = "d1";
    proposal_id = "p1";
    authorization_id = "z1";
  };
  memory = record { provenance = provenance; reflection_id = "x1" };
  previous_decision_id = "d1";
  previous_proposal_id = "p1";
  previous_authorization_id = "z1";
  previous_context_artifact_id = "a1";
}

input_made : make_input input ≡ ok input
unfolding make_input same_provenance same_state is_blank
input_made = refl

abbrev artifacts : Artifacts
artifacts = record {
  context_artifact_id = "a2";
  decision_request_id = "q2";
  decision_id = "d2";
  proposal_id = "p1";
  authorization_id = "z2";
  receipt_id = "m2";
  verification_id = "v2";
  context_fingerprint = "f2";
}

old_proposal : validate_fresh_iteration input artifacts ≡ err (stale "proposal_id")
unfolding validate_fresh_iteration
old_proposal = refl

decide_lem_example : IsReplanned input "k" 10 []
unfolding is_blank
decide_lem_example = decide_lem input input_made first_round-IsValid refl "k" 10 []
