-- ===== src/GovernedExecution/Machine/Effects.antt =====
-- What callers see of a transition: exhausted budgets and the raising variant.
use eag.Prelude.{
  ℕ, ◌+◌, ◌≤◌, ◌≡◌, refl, ap, ◌∙◌, true, Option, some, List, [], ◌∷◌, ◌++◌, arith, if◌then◌else◌,
  ok, err, length, Bool-cases, inl, inr,
}
use eag.GovernedExecution.State.{
  State, context_assembling, mutating, verifying, failed, StopReason, is_legal,
  iteration_budget_exhausted, mutation_budget_exhausted, verification_budget_exhausted,
}
use eag.GovernedExecution.Reason.{validate_terminal_stop_reason}
use eag.GovernedExecution.Budget
use eag.GovernedExecution.Ledger.{Evidence, Context, make_context}
use eag.GovernedExecution.Ledger.Validation.{make_context-IsGenuine}
use eag.GovernedExecution.Machine.{refused, charge, attempt, accept}
use eag.GovernedExecution.Machine.Charging.{IsValid}
use eag.GovernedExecution.Budget.{
  consume_iteration_lem, consume_mutation_lem, consume_verification_lem,
}
use eag.GovernedExecution.Ledger.Validation.{make_context-IsGenuine}
use eag.GovernedExecution.Machine.{
  Bus, transition, Bus, transition_or_raise, illegal_transition, value_error,
}
use eag.GovernedExecution.Machine.Transitions.{attempt_exact, is_ok}

-- The stage's budget is spent, and the reason that says so.
pub data Spent (b : Budget.Budget) : State → StopReason → Type 0 where
  iterations :
      b.max_iterations ≤ b.iterations_used → Spent b context_assembling iteration_budget_exhausted
  mutations : b.max_mutations ≤ b.mutations_used → Spent b mutating mutation_budget_exhausted
  verifications :
      b.max_verifications ≤ b.verifications_used → Spent b verifying verification_budget_exhausted

charge-Spent :
    (c : Context) (v : IsValid c) {target : State} {reason : StopReason}
    → Spent c.budget target reason
    → charge c target ≡ refused c reason
unfolding charge
charge-Spent c v (iterations h) =
    rw (consume_iteration_lem c.budget v.within, charge) (ground arith)
charge-Spent c v (mutations h) = rw (consume_mutation_lem c.budget v.within, charge) (ground arith)
charge-Spent c v (verifications h) =
    rw (consume_verification_lem c.budget v.within, charge) (ground arith)

Spent-fits :
    {b : Budget.Budget} {target : State} {reason : StopReason}
    → Spent b target reason
    → is_ok (validate_terminal_stop_reason failed (some reason)) ≡ true
unfolding validate_terminal_stop_reason
Spent-fits (iterations h) = refl
Spent-fits (mutations h) = refl
Spent-fits (verifications h) = refl

-- A legal request to enter a stage whose budget is spent is accepted as a transition to `failed`,
-- with the reason that names the budget, whatever reason was asked for; the budget is kept.
pub exhausted_fails :
    (now : ℕ) (c : Context) {target : State} {reason : StopReason} (evidence : List Evidence)
    (stop_reason : Option StopReason)
    → make_context c ≡ ok c
    → Budget.IsValid c.budget
    → is_legal c.state target ≡ true
    → Spent c.budget target reason
    → attempt now c target evidence stop_reason
      ≡ accept (record c {
        state = failed;
        history =
            c.history
            ++ record {
              sequence = length c.history + 1;
              iteration = c.iteration;
              from_state = c.state;
              to_state = failed;
              occurred_at = now;
              reason = some reason;
              evidence = evidence;
            }
              ∷ [];
        evidence = c.evidence ++ evidence;
        stop_reason = some reason;
      })
exhausted_fails now c {target} {reason} evidence stop_reason made within legal spent =
    let v : IsValid c = record { genuine = (make_context-IsGenuine c c made).0; within = within } in
    attempt_exact now c v target evidence stop_reason
    ∙ rw (legal, charge-Spent c v spent, Spent-fits spent)

-- The raising variant raises `IllegalTransitionError` for an illegal request, `ValueError` for a
-- stop reason that does not fit, and otherwise returns what `transition` accepts; it publishes what
-- `transition` does.
pub raise_exact :
    (bus : Option Bus) (now : ℕ) (c : Context) (target : State) (evidence : List Evidence)
    (stop_reason : Option StopReason)
    → make_context c ≡ ok c
    → Budget.IsValid c.budget
    → transition_or_raise bus now c target evidence stop_reason ≡ (
      if is_legal c.state target
          then if (attempt now c target evidence stop_reason).accepted
            then ok (attempt now c target evidence stop_reason).context
            else err (value_error "invalid_stop_reason")
          else err (illegal_transition c.state target),
      (transition bus now c target evidence stop_reason).1,
    )
unfolding transition_or_raise transition
raise_exact bus now c target evidence stop_reason made within =
    let v : IsValid c = record { genuine = (make_context-IsGenuine c c made).0; within = within } in
    ap (λ answer. (answer, (transition bus now c target evidence stop_reason).1))
      (rw (attempt_exact now c v target evidence stop_reason)
        (elim (Bool-cases (is_legal c.state target)) [
          | inl legal ↦ rw legal (ground arith)
          | inr illegal ↦ rw illegal
        ]))
