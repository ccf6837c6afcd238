-- ===== src/GovernedExecution/Tests.antt =====
-- A small execution, run in the model, and the theorems at it.
use eag.Prelude.{
  ℕ, ◌≤◌, ◌≡◌, ◌↔◌, refl, true, false, none, some, [], ◌∷◌, ◌++◌, is_blank, arith, ok, err, length,
  is_empty, any,
}
use eag.GovernedExecution.State.{
  State, created, context_assembling, planning, mutating, authorizing, verifying, failed, success,
  mutation_budget_exhausted, is_terminal, same_state, is_legal, EvidenceKind,
}
use eag.GovernedExecution.Reason.{validate_terminal_stop_reason}
use eag.GovernedExecution.Authority.{Authority, validate_fresh, IsFresh, validate_fresh-IsFresh}
use eag.Prelude.{String}
use eag.Prelude.Int.{pos}
use eag.GovernedExecution.Budget
use eag.GovernedExecution.Budget.{Budget, consume_iteration, consume_mutation, consume_verification}
use eag.GovernedExecution.Ledger.{
  Evidence, Record, Context, make_context, make_record, validate_history, check_history,
  validate_initial_context, walk, check_record, check_end, same_all, same_reason,
}
use eag.GovernedExecution.Machine.{
  Bus, attempt, accept, reject, advance, advance_charged, charge, transition, transition_or_raise,
  illegal_transition, publish, observations, deliver, budget_or_validation_code,
}
use eag.GovernedExecution.Machine.Charging.{IsValid}
use eag.GovernedExecution.Machine.Transitions.{attempt_exact}
use eag.GovernedExecution.Machine.Runs.{initial, initial-IsValid, origin, Reach}
use eag.GovernedExecution.Machine.Rebuild.{ledger_exact}
use eag.GovernedExecution.Machine.Bounds.{history_bound}
use eag.GovernedExecution.Machine.Effects.{exhausted_fails, raise_exact, Spent}
use eag.GovernedExecution.Machine.Publishing.{
  quiet, is_started, is_stopped, events, published_exact,
}

abbrev limits : Budget
limits = record {
  max_iterations = 1;
  max_mutations = 1;
  max_verifications = 1;
  iterations_used = 0;
  mutations_used = 0;
  verifications_used = 0;
}

limits-IsValid : Budget.IsValid limits
limits-IsValid = omega arith

abbrev fresh : Context
fresh = initial "e" "r" "g" limits

abbrev plan_ref : Evidence
plan_ref = record { kind = EvidenceKind.plan; reference_id = "p1"; digest = ""; metadata = 0 }

fresh_made : make_context fresh ≡ ok fresh
unfolding make_context validate_history check_history validate_initial_context same_state is_blank
fresh_made = refl

all_code : Unit {0}
unfolding make_context validate_history check_history validate_initial_context walk check_record
    check_end same_state is_blank same_all same_reason is_legal is_terminal attempt advance
    advance_charged charge consume_iteration consume_mutation consume_verification make_record
    validate_terminal_stop_reason transition publish deliver observations transition_or_raise
all_code = tt

assembling : Context
assembling = (attempt 7 fresh context_assembling (plan_ref ∷ []) none).context

run_first : (attempt 7 fresh context_assembling (plan_ref ∷ []) none).accepted ≡ true
unfolding all_code
run_first = refl

bad_reason :
    attempt 7 fresh context_assembling [] (some success) ≡ reject fresh "invalid_stop_reason"
unfolding all_code budget_or_validation_code
bad_reason = refl

fresh-IsValid : IsValid fresh
unfolding is_blank
fresh-IsValid = initial-IsValid "e" "r" "g" limits refl refl refl limits-IsValid

ledger_exact_example :
    ((make_context assembling ≡ ok assembling)
      × Budget.IsValid assembling.budget
      × (origin assembling ≡ fresh))
    ↔ Reach fresh assembling
unfolding is_blank
ledger_exact_example = ledger_exact "e" "r" "g" limits refl refl refl limits-IsValid assembling

attempt_exact_example : attempt 7 fresh mutating [] none ≡ reject fresh "illegal_transition"
unfolding is_legal
attempt_exact_example = attempt_exact 7 fresh fresh-IsValid mutating [] none

history_bound_example : length fresh.history ≤ 11
history_bound_example = history_bound fresh fresh_made limits-IsValid

raise_exact_example :
    transition_or_raise (some quiet) 7 fresh mutating [] none
    ≡ (err (illegal_transition created mutating), [])
unfolding is_legal transition attempt
raise_exact_example = raise_exact (some quiet) 7 fresh mutating [] none fresh_made limits-IsValid

-- Handlers that always raise.
abbrev deaf : Bus
deaf e = false

published_exact_example :
    (any is_started (events 7 fresh context_assembling [] none (some deaf)) ≡ true)
    × (any is_stopped (events 7 fresh context_assembling [] none (some deaf)) ≡ false)
    × (any is_stopped (events 7 fresh context_assembling [] none (some quiet)) ≡ false)
    × (is_empty (events 7 fresh context_assembling [] none (some deaf)) ≡ false)
unfolding all_code
published_exact_example =
    published_exact 7 fresh context_assembling [] none (some deaf) fresh_made limits-IsValid

-- A context before its only mutation, with the mutation budget already spent, cannot be made; one
-- before its second can.
abbrev record_of : ℕ → ℕ → State → State → Record
record_of n i from to = record {
  sequence = n;
  iteration = i;
  from_state = from;
  to_state = to;
  occurred_at = n;
  reason = none;
  evidence = [];
}

abbrev second_round : Context
second_round = record fresh {
  state = authorizing;
  iteration = 2;
  budget = record limits {
    max_iterations = 2;
    max_verifications = 2;
    iterations_used = 2;
    mutations_used = 1;
    verifications_used = 1;
  };
  history =
      record_of 1 1 created context_assembling
      ∷ record_of 2 1 context_assembling planning
      ∷ record_of 3 1 planning State.deciding
      ∷ record_of 4 1 State.deciding State.proposing
      ∷ record_of 5 1 State.proposing authorizing
      ∷ record_of 6 1 authorizing mutating
      ∷ record_of 7 1 mutating verifying
      ∷ record_of 8 1 verifying State.reflecting
      ∷ record_of 9 1 State.reflecting State.replanning
      ∷ record_of 10 2 State.replanning context_assembling
      ∷ record_of 11 2 context_assembling planning
      ∷ record_of 12 2 planning State.deciding
      ∷ record_of 13 2 State.deciding State.proposing
      ∷ record_of 14 2 State.proposing authorizing
      ∷ [];
}

second_round_made : make_context second_round ≡ ok second_round
unfolding all_code
second_round_made = refl

exhausted_fails_example :
    attempt 15 second_round mutating [] none
    ≡ accept (record second_round {
      state = failed;
      history =
          second_round.history
          ++ record (record_of 15 2 authorizing failed) { reason = some mutation_budget_exhausted }
            ∷ [];
      stop_reason = some mutation_budget_exhausted;
    })
unfolding is_legal
exhausted_fails_example =
    exhausted_fails 15 second_round [] none second_round_made (omega arith) refl
      (Spent.mutations (omega arith))

limits_made : Budget.make (pos 1) (pos 1) (pos 1) (pos 0) (pos 0) (pos 0) ≡ ok limits
unfolding Budget.make
limits_made = refl

make-IsValid_example : Budget.IsValid limits
make-IsValid_example =
    Budget.make-IsValid (pos 1) (pos 1) (pos 1) (pos 0) (pos 0) (pos 0) limits limits_made

abbrev authority_of : ℕ → String → String → String → String → String → String → Authority
authority_of n artifact print request decision proposal authorization = record {
  execution_id = "e";
  iteration = n;
  context_artifact_id = artifact;
  context_fingerprint = print;
  decision_request_id = request;
  decision_id = decision;
  proposal_id = proposal;
  authorization_id = authorization;
  contract_version = "1.0";
}

abbrev authority_one : Authority
authority_one = authority_of 1 "a1" "f1" "q1" "d1" "p1" "z1"

abbrev authority_two : Authority
authority_two = authority_of 2 "a2" "f2" "q2" "d2" "p2" "z2"

validate_fresh-IsFresh_example :
    (validate_fresh authority_one authority_two ≡ ok tt) ↔ IsFresh authority_one authority_two
validate_fresh-IsFresh_example = validate_fresh-IsFresh authority_one authority_two

-- References that differ in their metadata alone are not equal.
metadata-counts : same_all (record plan_ref { metadata = 1 } ∷ []) (plan_ref ∷ []) ≡ false
unfolding same_all
metadata-counts = refl
