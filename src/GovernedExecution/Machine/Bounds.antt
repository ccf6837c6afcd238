-- ===== src/GovernedExecution/Machine/Bounds.antt =====
-- A ledger cannot outgrow its iteration budget.
use eag.Prelude.{
  ℕ, ◌+◌, ◌*◌, ◌≤◌, ◌≡◌, ap, sym, ◌∙◌, true, List, [], ◌∷◌, arith, ok, >>=-eq-ok, length,
}
use eag.GovernedExecution.State.{
  State, created, context_assembling, mutating, verifying, same_state, is_legal,
}
use eag.GovernedExecution.Budget
use eag.GovernedExecution.Ledger.{Record, Context, Walk, start, count_if, make_context, walk}
use eag.GovernedExecution.Ledger.Walks.{summary, step_walk, Follows}
use eag.GovernedExecution.Ledger.{check_record}
use eag.GovernedExecution.Ledger.Walks.{check_record-Follows}
use eag.GovernedExecution.Ledger.Validation.{make_context-IsGenuine}

-- The place of a state in an iteration, which every transition but that into the next iteration
-- raises.
abbrev phase : State → ℕ
phase created = 10
phase context_assembling = 1
phase State.planning = 2
phase State.deciding = 3
phase State.proposing = 4
phase State.approval_pending = 5
phase State.authorizing = 6
phase mutating = 7
phase verifying = 8
phase State.reflecting = 9
phase State.replanning = 10
phase _ = 11

phase_rises :
    (s t : State) (n : ℕ)
    → is_legal s t ≡ true
    → 10 * n + phase s + 1 ≤ 10 * count_if (same_state t context_assembling) n + phase t
unfolding is_legal same_state
phase_rises created t n h = ground arith
phase_rises _ t n h = ground arith

step_rises :
    (n : ℕ) (w : Walk) (r : Record)
    → Follows n w r
    → 10 * w.iteration + phase w.state + 1
      ≤ 10 * (step_walk w r).iteration + phase (step_walk w r).state
step_rises n w r f =
    phase_rises w.state r.to_state w.iteration
      (ap (λ s. is_legal s r.to_state) (sym f.from_state) ∙ f.legal)

walk_bound :
    (n : ℕ) (w : Walk) (rs : List Record) (w' : Walk)
    → walk n w rs ≡ ok w'
    → 10 * w.iteration + phase w.state + length rs ≤ 10 * w'.iteration + phase w'.state
unfolding walk
walk_bound n w [] w' h = ground arith
walk_bound n w (r ∷ rs) w' h =
    let (w₁, first, rest) = >>=-eq-ok (check_record n w r) (λ v. walk (n + 1) v rs) h in
    let (follows, e) = check_record-Follows n w r w₁ first in
    let up = step_rises n w r follows in
    let up' : 10 * w.iteration + phase w.state + 1 ≤ 10 * w₁.iteration + phase w₁.state = rw e up in
    omega (arith, walk_bound (n + 1) w₁ rs w' rest)

phase-le : (s : State) → phase s ≤ 11
phase-le created = omega arith
phase-le _ = omega arith

-- An accepted ledger has at most ten records for each iteration of its budget, and one more.
pub history_bound :
    (c : Context)
    → make_context c ≡ ok c
    → Budget.IsValid c.budget
    → length c.history ≤ 10 * c.budget.max_iterations + 1
history_bound c made within =
    let consistent = (make_context-IsGenuine c c made).0.consistent in
    omega (
      arith,
      walk_bound 1 start c.history (summary c) consistent.walked,
      consistent.counted,
      phase-le c.state,
      within.iterations_within,
    )
