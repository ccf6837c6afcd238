-- ===== src/GovernedExecution/Ledger.antt =====
-- The ledger of src/eag/governed_execution/models.py: evidence references, transition records, and
-- the execution context with the validation of its history. Time is a number that the caller
-- reads from the clock. The mapping `metadata` of an evidence reference, which its `==` compares,
-- is a number: the same one exactly for mappings that are equal by `==`. The context's own
-- `metadata`, which no operation here reads or compares, is left out. Numbers are natural, so the
-- tests for negative ones have no counterpart.
pub mod Compare
pub mod Walks
pub mod Validation
use text.Mathlib.Text.{◌==◌ as str_eq}
use eag.Prelude.{
  is_empty, ℕ, ◌+◌, Bool, true, false, not, ◌&&◌, String, Option, none, some, List, [], ◌∷◌, ◌++◌,
  Result, ok, ◌>>=◌, ◌>>◌, guard, ◌==◌, leb, is_blank, if◌then◌else◌,
}
use eag.GovernedExecution.State.{
  State, created, context_assembling, mutating, verifying, StopReason, EvidenceKind, is_terminal,
  same_state, is_legal,
}
use eag.GovernedExecution.Failure.{
  Failure, execution_id, run_id, goal, reference_id, empty_text, bad_sequence, history_sequence,
  history_origin, history_illegal, history_terminal, history_iteration, last_state, last_iteration,
  budget_iteration, budget_mutations, budget_verifications, last_evidence, last_reason, reason_left,
  initial_state, initial_iteration, initial_mutations, initial_verifications, initial_evidence,
  initial_reason,
}
use eag.GovernedExecution.Reason.{validate_terminal_stop_reason}
use eag.GovernedExecution.Budget.{Budget}

-- `ExecutionEvidenceRef`
pub record Evidence : Type 0 where
  pub kind : EvidenceKind
  pub reference_id : String
  pub digest : String
  pub metadata : ℕ

unfoldable pub make_evidence : Evidence → Result Failure Evidence
make_evidence e = do guard (not (is_blank e.reference_id)) (empty_text reference_id); ok e

abbrev kind_index : EvidenceKind → ℕ
kind_index EvidenceKind.plan = 0
kind_index EvidenceKind.decision = 1
kind_index EvidenceKind.proposal = 2
kind_index EvidenceKind.authorization = 3
kind_index EvidenceKind.mutation_receipt = 4
kind_index EvidenceKind.verification = 5
kind_index EvidenceKind.reflection = 6
kind_index EvidenceKind.memory = 7
kind_index EvidenceKind.replanning = 8

-- The dataclass's `==`.
same_evidence : Evidence → Evidence → Bool
same_evidence a b =
    kind_index a.kind == kind_index b.kind
    && (str_eq a.reference_id b.reference_id
        && (str_eq a.digest b.digest && a.metadata == b.metadata))

-- `==` on tuples of evidence.
unfoldable pub same_all : List Evidence → List Evidence → Bool
unfolding same_evidence
same_all [] [] = true
same_all [] (b ∷ bs) = false
same_all (a ∷ as') [] = false
same_all (a ∷ as') (b ∷ bs) = same_evidence a b && same_all as' bs

-- `ExecutionTransitionRecord`
pub record Record : Type 0 where
  pub sequence : ℕ
  pub iteration : ℕ
  pub from_state : State
  pub to_state : State
  pub occurred_at : ℕ
  pub reason : Option StopReason
  pub evidence : List Evidence

unfoldable pub make_record : Record → Result Failure Record
make_record r = do guard (leb 1 r.sequence) bad_sequence; ok r

-- `GovernedExecutionContext`
pub record Context : Type 0 where
  pub execution_id : String
  pub run_id : String
  pub goal : String
  pub state : State
  pub iteration : ℕ
  pub budget : Budget
  pub history : List Record
  pub evidence : List Evidence
  pub stop_reason : Option StopReason

-- The local variables of the loop of `_validate_history`.
pub record Walk : Type 0 where
  pub state : State
  pub iteration : ℕ
  pub mutations : ℕ
  pub verifications : ℕ
  pub evidence : List Evidence

abbrev pub start : Walk
start = record { state = created; iteration = 0; mutations = 0; verifications = 0; evidence = [] }

-- `if test: n += 1`
abbrev pub count_if : Bool → ℕ → ℕ
count_if true n = n + 1
count_if false n = n

-- One round of the loop.
unfoldable pub check_record : ℕ → Walk → Record → Result Failure Walk
check_record expected_sequence w r = do
  guard (r.sequence == expected_sequence) history_sequence
  guard (same_state r.from_state w.state) history_origin
  guard (is_legal r.from_state r.to_state) history_illegal
  guard (not (is_terminal w.state)) history_terminal
  guard (r.iteration == count_if (same_state r.to_state context_assembling) w.iteration)
      history_iteration
  validate_terminal_stop_reason r.to_state r.reason
  ok (record {
    state = r.to_state;
    iteration = count_if (same_state r.to_state context_assembling) w.iteration;
    mutations = count_if (same_state r.to_state mutating) w.mutations;
    verifications = count_if (same_state r.to_state verifying) w.verifications;
    evidence = w.evidence ++ r.evidence;
  })

-- The loop.
unfoldable pub walk : ℕ → Walk → List Record → Result Failure Walk
walk n w [] = ok w
walk n w (r ∷ rs) = do w' ← check_record n w r; walk (n + 1) w' rs

abbrev reason_index : Option StopReason → ℕ
reason_index none = 0
reason_index (some StopReason.success) = 1
reason_index (some StopReason.iteration_budget_exhausted) = 2
reason_index (some StopReason.mutation_budget_exhausted) = 3
reason_index (some StopReason.verification_budget_exhausted) = 4
reason_index (some StopReason.policy_rejected) = 5
reason_index (some StopReason.authorization_failed) = 6
reason_index (some StopReason.provider_failed) = 7
reason_index (some StopReason.verification_failed) = 8
reason_index (some StopReason.unrecoverable) = 9
reason_index (some StopReason.user_aborted) = 10

unfoldable pub same_reason : Option StopReason → Option StopReason → Bool
same_reason a b = reason_index a == reason_index b

abbrev pub is_none {ℓ} : {A : Type ℓ} → Option A → Bool
is_none none = true
is_none (some a) = false

-- The tests behind the loop, given the final record's reason.
unfoldable pub check_end : Context → Walk → Option StopReason → Result Failure (Unit {0})
check_end c w final_reason = do
  guard (same_state w.state c.state) last_state
  guard (w.iteration == c.iteration) last_iteration
  guard (c.iteration == c.budget.iterations_used) budget_iteration
  guard (w.mutations == c.budget.mutations_used) budget_mutations
  guard (w.verifications == c.budget.verifications_used) budget_verifications
  guard (same_all w.evidence c.evidence) last_evidence
  if is_terminal c.state
      then guard (same_reason c.stop_reason final_reason) last_reason
      else guard (is_none c.stop_reason) reason_left

unfoldable pub validate_initial_context : Context → Result Failure (Unit {0})
validate_initial_context c = do
  guard (same_state c.state created) initial_state
  guard (c.iteration == 0 && c.budget.iterations_used == 0) initial_iteration
  guard (c.budget.mutations_used == 0) initial_mutations
  guard (c.budget.verifications_used == 0) initial_verifications
  guard (is_empty c.evidence) initial_evidence
  guard (is_none c.stop_reason) initial_reason

-- `self.history[-1]` of a history that begins with the given record.
abbrev pub final : Record → List Record → Record
final r [] = r
final r (s ∷ rs) = final s rs

unfoldable pub check_history : Context → List Record → Result Failure (Unit {0})
check_history c [] = validate_initial_context c
check_history c (r ∷ rs) = do w ← walk 1 start (r ∷ rs); check_end c w (final r rs).reason

unfoldable pub validate_history : Context → Result Failure (Unit {0})
unfolding check_history
validate_history c = check_history c c.history

-- `__post_init__`: the context of the given fields, if they pass.
unfoldable pub make_context : Context → Result Failure Context
make_context c = do
  guard (not (is_blank c.execution_id)) (empty_text execution_id)
  guard (not (is_blank c.run_id)) (empty_text run_id)
  guard (not (is_blank c.goal)) (empty_text goal)
  validate_history c
  ok c
