-- ===== src/GovernedExecution/Replanning/Recovery.antt =====
-- What a decision of src/eag/governed_execution/replanning.py means to the state machine.
use eag.Prelude.{
  ltb, guard, ◌>>◌, ◌⊎◌, inl, inr, Bool-cases, ℕ, suc, ◌+◌, ◌≡◌, ◌≤◌, refl, sym, ◌∙◌, Bool, true,
  false, not, ◌&&◌, ◌||◌, none, List, [], ◌∷◌, String, Result, ok, >>=-eq-ok, leb, arith, is_blank,
}
use eag.GovernedExecution.State.{
  State, is_terminal, created, aborted, context_assembling, is_legal, same_state, same_state→eq,
}
use eag.GovernedExecution.Budget.{
  consume_iteration_lem, iterations_remaining, mutations_remaining, verifications_remaining,
}
use eag.GovernedExecution.Ledger.{
  Evidence, Record, Context, Walk, start, walk, check_record, count_if,
}
use eag.GovernedExecution.Ledger.Walks.{check_record-Follows, summary}
use eag.GovernedExecution.Machine.{
  attempt, charge, accept, Charge, next_context, next_record, TransitionResult,
}
use eag.GovernedExecution.Machine.Transitions.{attempt_exact}
use eag.GovernedExecution.Reason.{validate_terminal_stop_reason}
use eag.GovernedExecution.Machine.Charging.{IsValid}
use eag.GovernedExecution.Replanning.{
  outcome_of, Reflection, ReplanningAction, continue_with_fresh_decision, ReplanningInput,
  ReplanningError, ReplanningOutcome, make_input, decide, choose, make_outcome, is_failure,
  is_unsatisfied,
}

-- Every state of a run but the first and an abortion.
abbrev is_begun : State → Bool
is_begun created = false
is_begun aborted = false
is_begun _ = true

abbrev counts : State → ℕ → Bool
counts s i = not (is_begun s) || leb 1 i

legal-counts :
    (s t : State) (i : ℕ)
    → is_legal s t ≡ true
    → counts s i ≡ true
    → counts t (count_if (same_state t context_assembling) i) ≡ true
unfolding is_legal same_state
legal-counts s created i h v = refl
legal-counts s aborted i h v = refl
legal-counts s context_assembling i h v = ground arith
legal-counts created t i h v = cc
legal-counts aborted t i h v = cc
legal-counts s t i h v = v

walk-counts :
    (n : ℕ) (w : Walk) (rs : List Record) (w' : Walk)
    → walk n w rs ≡ ok w'
    → counts w.state w.iteration ≡ true
    → counts w'.state w'.iteration ≡ true
unfolding walk
walk-counts n w [] w' h v = ground (arith, h, v)
walk-counts n w (r ∷ rs) w' h v =
    let (w₁, first, rest) = >>=-eq-ok (check_record n w r) (λ x. walk (n + 1) x rs) h in
    let (follows, e) = check_record-Follows n w r w₁ first in
    walk-counts (n + 1) w₁ rs w' rest (
      rw e (legal-counts w.state r.to_state w.iteration (rw follows.from_state at follows.legal) v))

-- When recovery may continue.
abbrev pub eligible : ReplanningInput → Bool
eligible i =
    is_failure i.reflection.verification
    && (is_unsatisfied i.reflection.objective
        && (leb i.execution_context.iteration 1
            && (ltb i.execution_context.budget.iterations_used
                  i.execution_context.budget.max_iterations
                && (ltb i.execution_context.budget.mutations_used
                      i.execution_context.budget.max_mutations
                    && ltb i.execution_context.budget.verifications_used
                        i.execution_context.budget.max_verifications))))

abbrev pub is_continue : ReplanningAction → Bool
is_continue continue_with_fresh_decision = true
is_continue _ = false

-- The machine takes a transition into the second iteration, and leaves room for one more mutation
-- and one more verification.
pub record Recovers (result : TransitionResult) : Type 0 where
  pub accepted : result.accepted ≡ true
  pub state : result.context.state ≡ context_assembling
  pub iteration : result.context.iteration ≡ 2
  pub mutations : suc result.context.budget.mutations_used ≤ result.context.budget.max_mutations
  pub verifications :
      suc result.context.budget.verifications_used ≤ result.context.budget.max_verifications

pub record IsReplanned (i : ReplanningInput) (planning_decision_id : String) (now : ℕ)
    (evidence : List Evidence) : Type 0 where
  pub outcome : ReplanningOutcome
  pub decided : decide i planning_decision_id ≡ ok outcome
  pub continues : is_continue outcome.action ≡ eligible i
  pub recovers :
      (is_continue outcome.action ≡ false)
      ⊎ Recovers (attempt now i.execution_context context_assembling evidence none)

guard_first :
    {A : Type 0} (b : Bool) (e : ReplanningError) (rest : Result ReplanningError A) (a : A)
    → (guard b e >> rest) ≡ ok a
    → b ≡ true
guard_first true e rest a h = refl
guard_first false e rest a h = cc

input-state :
    (i : ReplanningInput) → make_input i ≡ ok i → i.execution_context.state ≡ State.replanning
unfolding make_input
input-state i h = same_state→eq i.execution_context.state State.replanning (guard_first _ _ _ _ h)

module _ (c : Context) (v : IsValid c) (here : c.state ≡ State.replanning) where
  begun : 1 ≤ c.iteration
  begun =
      let n = walk-counts 1 start c.history (summary c) v.genuine.consistent.walked refl in
      let m : counts State.replanning c.iteration ≡ true = rw here at n in ground (arith, m)

  choose_lem :
      (r : Reflection)
      → is_continue (choose c r).0 ≡ (
          is_failure r.verification
          && (is_unsatisfied r.objective
              && (leb c.iteration 1
                  && (ltb c.budget.iterations_used c.budget.max_iterations
                      && (ltb c.budget.mutations_used c.budget.max_mutations
                          && ltb c.budget.verifications_used c.budget.max_verifications)))))
  unfolding choose iterations_remaining mutations_remaining verifications_remaining is_terminal
  choose_lem r = rw here (ground arith)

  abbrev second : Charge
  second = record {
    target = context_assembling;
    budget = record c.budget { iterations_used = c.budget.iterations_used + 1 };
    iteration = c.budget.iterations_used + 1;
    exhausted = none;
  }

  second-charge :
      ltb c.budget.iterations_used c.budget.max_iterations ≡ true
      → charge c context_assembling ≡ second
  unfolding charge
  second-charge some_left =
      let left : leb c.budget.max_iterations c.budget.iterations_used ≡ false = ground arith in
      rw (consume_iteration_lem c.budget v.within, left, charge) refl

  second-attempt :
      (now : ℕ) (evidence : List Evidence)
      → ltb c.budget.iterations_used c.budget.max_iterations ≡ true
      → attempt now c context_assembling evidence none
        ≡ accept (next_context c second (next_record now c second evidence none))
  unfolding is_legal validate_terminal_stop_reason
  second-attempt now evidence some_left =
      let legal : is_legal c.state context_assembling ≡ true = rw here refl in
      attempt_exact now c v context_assembling evidence none
      ∙ rw (legal, second-charge some_left) refl

  recovery :
      (now : ℕ) (evidence : List Evidence)
      → ltb c.budget.iterations_used c.budget.max_iterations ≡ true
      → leb c.iteration 1 ≡ true
      → ltb c.budget.mutations_used c.budget.max_mutations ≡ true
      → ltb c.budget.verifications_used c.budget.max_verifications ≡ true
      → Recovers (attempt now c context_assembling evidence none)
  recovery now evidence some_left first m w =
      let counted : c.iteration ≡ c.budget.iterations_used = v.genuine.consistent.counted in
      rw (second-attempt now evidence some_left) (record {
        accepted = refl;
        state = refl;
        iteration = ground (arith, begun);
        mutations = ground arith;
        verifications = ground arith;
      })

-- On a constructed input with a valid context and a reflection report that has an identifier, the
-- policy decides. It continues exactly where the verification failed, the objective is not
-- satisfied, the iteration is the first, and each budget has room; and where it continues, the
-- state machine accepts the transition into the second iteration with any evidence and leaves room
-- for one more mutation and one more verification.
pub decide_lem :
    (i : ReplanningInput)
    → make_input i ≡ ok i
    → IsValid i.execution_context
    → is_blank i.reflection.report_id ≡ false
    → (planning_decision_id : String) (now : ℕ) (evidence : List Evidence)
    → IsReplanned i planning_decision_id now evidence
unfolding decide make_outcome
decide_lem i h v report planning_decision_id now evidence =
    let here = input-state i h in
    let c = i.execution_context in
    record {
      outcome = outcome_of i planning_decision_id;
      decided = rw (v.genuine.named, report) (ground (arith, begun c v here));
      continues = choose_lem c v here i.reflection;
      recovers = elim (Bool-cases (is_continue (choose c i.reflection).0)) [
        | inr no_more ↦ inl no_more
        | inl more ↦
            let fits = sym (choose_lem c v here i.reflection) ∙ more in
            inr (
              recovery c v here now evidence (ground (arith, fits)) (ground (arith, fits))
                (ground (arith, fits)) (ground (arith, fits)))
      ];
    }
