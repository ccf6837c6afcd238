-- ===== src/GovernedExecution/State.antt =====
-- src/eag/governed_execution/enums.py, and the static contracts of models.py over them: the legal
-- transitions and the terminal reason contract.
use eag.Prelude.{
  ℕ, ◌≡◌, refl, sym, ap, ◌∙◌, Bool, true, false, List, [], ◌∷◌, arith, ◌==◌, ==_iff, ==_refl, any,
  if◌then◌else◌,
}

-- `GovernedExecutionState`
pub data State : Type 0 where
  created context_assembling planning deciding proposing approval_pending authorizing mutating
        verifying reflecting replanning completed failed aborted :
      State

-- `GovernedExecutionStopReason`
pub data StopReason : Type 0 where
  success iteration_budget_exhausted mutation_budget_exhausted verification_budget_exhausted
        policy_rejected authorization_failed provider_failed verification_failed unrecoverable
        user_aborted :
      StopReason

-- `ExecutionEvidenceKind`
pub data EvidenceKind : Type 0 where
  plan decision proposal authorization mutation_receipt verification reflection memory replanning :
      EvidenceKind

unfoldable pub is_terminal : State → Bool
is_terminal completed = true
is_terminal failed = true
is_terminal aborted = true
is_terminal _ = false

-- The place of a member in its enumeration, by which `is` and `in` compare.
abbrev state_index : State → ℕ
state_index created = 0
state_index context_assembling = 1
state_index planning = 2
state_index deciding = 3
state_index proposing = 4
state_index approval_pending = 5
state_index authorizing = 6
state_index mutating = 7
state_index verifying = 8
state_index reflecting = 9
state_index State.replanning = 10
state_index completed = 11
state_index failed = 12
state_index aborted = 13

State_discrete : Discrete State
State_discrete = hlevel

unfoldable pub same_state : State → State → Bool
same_state s t = state_index s == state_index t

unfoldable pub legal_transitions : State → List State
legal_transitions created = context_assembling ∷ aborted ∷ []
legal_transitions context_assembling = planning ∷ failed ∷ []
legal_transitions planning = deciding ∷ failed ∷ aborted ∷ []
legal_transitions deciding = proposing ∷ failed ∷ []
legal_transitions proposing = approval_pending ∷ authorizing ∷ failed ∷ []
legal_transitions approval_pending = authorizing ∷ aborted ∷ []
legal_transitions authorizing = mutating ∷ failed ∷ []
legal_transitions mutating = verifying ∷ failed ∷ []
legal_transitions verifying = completed ∷ reflecting ∷ failed ∷ []
legal_transitions reflecting = State.replanning ∷ failed ∷ []
legal_transitions State.replanning = context_assembling ∷ failed ∷ []
legal_transitions _ = []

-- `GovernedExecutionStateMachine.is_legal`
unfoldable pub is_legal : State → State → Bool
unfolding legal_transitions same_state
is_legal from_state to_state = any (same_state to_state) (legal_transitions from_state)

pub same_state_refl : (s : State) → same_state s s ≡ true
unfolding same_state
same_state_refl s = ==_refl (state_index s)

-- A member is determined by its place.
state_at : ℕ → State
state_at = λ n.
    if n == 0
    then created
    else if n == 1
    then context_assembling
    else if n == 2
    then planning
    else if n == 3
    then deciding
    else if n == 4
    then proposing
    else if n == 5
    then approval_pending
    else if n == 6
    then authorizing
    else if n == 7
    then mutating
    else if n == 8
    then verifying
    else if n == 9
    then reflecting
    else if n == 10
    then State.replanning
    else if n == 11
    then completed
    else if n == 12
    then failed
    else aborted

state_at-index : (s : State) → state_at (state_index s) ≡ s
unfolding state_at
state_at-index created = refl
state_at-index _ = refl

pub same_state→eq : (s t : State) → same_state s t ≡ true → s ≡ t
unfolding same_state
same_state→eq s t h =
    sym (state_at-index s)
    ∙ ap state_at ((==_iff (state_index s) (state_index t)).0 h)
    ∙ state_at-index t

-- No transition leaves a terminal state.
pub terminal-not_legal : (s t : State) → is_terminal s ≡ true → is_legal s t ≡ false
unfolding is_terminal is_legal
terminal-not_legal completed t h = refl
terminal-not_legal _ t h = ground arith

pub legal-not_terminal : (s t : State) → is_legal s t ≡ true → is_terminal s ≡ false
unfolding is_terminal is_legal
legal-not_terminal completed t h = cc
legal-not_terminal _ t h = ground arith
