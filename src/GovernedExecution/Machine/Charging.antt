-- ===== src/GovernedExecution/Machine/Charging.antt =====
-- What `_advance` takes from the budget keeps the context's sums.
use eag.Prelude.{◌≢◌, ◌≡◌, refl, true, false, none, some, arith, ◌⊎◌, leb, ok, Bool-cases, inl, inr}
use eag.GovernedExecution.State.{
  State, created, context_assembling, mutating, verifying, failed, StopReason, same_state, is_legal,
  iteration_budget_exhausted, mutation_budget_exhausted, verification_budget_exhausted,
}
use eag.GovernedExecution.Reason.{validate_terminal_stop_reason}
use eag.GovernedExecution.Budget
use eag.GovernedExecution.Budget.{
  Budget, consume_iteration_lem, consume_mutation_lem, consume_verification_lem,
}
use eag.GovernedExecution.Ledger.{Context, count_if}
use eag.GovernedExecution.Ledger.Walks.{summary, walk-created}
use eag.GovernedExecution.Ledger.Validation.{IsGenuine}
use eag.GovernedExecution.Machine.{Charge, granted, refused, charge}

-- A context that the constructors accept.
pub record IsValid (c : Context) : Type 0 where
  pub genuine : IsGenuine c
  pub within : Budget.IsValid c.budget

created-unused : (c : Context) → IsValid c → c.state ≡ created → c.budget.iterations_used ≡ 0
created-unused c v e = ground (
  arith,
  walk-created c.history (summary c) v.genuine.consistent.walked e,
  v.genuine.consistent.counted,
)

-- What the charge for a transition owes to the context that follows.
pub record Charges (c : Context) (p : Charge) : Type 0 where
  pub legal : is_legal c.state p.target ≡ true
  pub within : Budget.IsValid p.budget
  pub iteration : p.iteration ≡ count_if (same_state p.target context_assembling) c.iteration
  pub counted : p.iteration ≡ p.budget.iterations_used
  pub mutations :
      p.budget.mutations_used ≡ count_if (same_state p.target mutating) c.budget.mutations_used
  pub verifications :
      p.budget.verifications_used
      ≡ count_if (same_state p.target verifying) c.budget.verifications_used
  pub excused : (p.exhausted ≡ none) ⊎ (validate_terminal_stop_reason p.target p.exhausted ≡ ok tt)

-- Before an exhausted stage the machine may fail.
legal_failed :
    (s : State) → is_legal s context_assembling ≡ true → s ≢ created → is_legal s failed ≡ true
unfolding is_legal
legal_failed created h n = absurd (n refl)
legal_failed _ h n = ground arith

legal_failed-mutating : (s : State) → is_legal s mutating ≡ true → is_legal s failed ≡ true
unfolding is_legal
legal_failed-mutating created h = ground arith
legal_failed-mutating _ h = ground arith

legal_failed-verifying : (s : State) → is_legal s verifying ≡ true → is_legal s failed ≡ true
unfolding is_legal
legal_failed-verifying created h = ground arith
legal_failed-verifying _ h = ground arith

module _ (c : Context) (v : IsValid c) where
  counted_now : c.iteration ≡ c.budget.iterations_used
  counted_now = v.genuine.consistent.counted

  -- A target that takes nothing from the budget.
  charge-granted :
      (target : State)
      → same_state target context_assembling ≡ false
      → same_state target mutating ≡ false
      → same_state target verifying ≡ false
      → is_legal c.state target ≡ true
      → Charges c (granted c target c.budget)
  charge-granted target a m w legal = record {
    legal = legal;
    within = v.within;
    iteration = rw a;
    counted = counted_now;
    mutations = rw m;
    verifications = rw w;
    excused = inl refl;
  }

  charge-refused :
      (reason : StopReason)
      → validate_terminal_stop_reason failed (some reason) ≡ ok tt
      → is_legal c.state failed ≡ true
      → Charges c (refused c reason)
  unfolding same_state
  charge-refused reason fits legal = record {
    legal = legal;
    within = v.within;
    iteration = refl;
    counted = counted_now;
    mutations = refl;
    verifications = refl;
    excused = inr fits;
  }

  charge-iteration :
      is_legal c.state context_assembling ≡ true → Charges c (charge c context_assembling)
  unfolding charge same_state validate_terminal_stop_reason
  charge-iteration legal =
      rw (consume_iteration_lem c.budget v.within, charge)
        (elim (Bool-cases (leb c.budget.max_iterations c.budget.iterations_used)) [
          | inl full ↦ rw full (
              charge-refused iteration_budget_exhausted refl (
                legal_failed c.state legal
                  (λ e. ground (arith, created-unused c v e, v.within.some_iterations))))
          | inr room ↦ rw room (record {
            legal = legal;
            within = ground arith;
            iteration = ground (arith, counted_now);
            counted = refl;
            mutations = refl;
            verifications = refl;
            excused = inl refl;
          })
        ])

  charge-mutation : is_legal c.state mutating ≡ true → Charges c (charge c mutating)
  unfolding charge same_state validate_terminal_stop_reason
  charge-mutation legal =
      rw (consume_mutation_lem c.budget v.within, charge)
        (elim (Bool-cases (leb c.budget.max_mutations c.budget.mutations_used)) [
          | inl full ↦
              rw full (
                charge-refused mutation_budget_exhausted refl (legal_failed-mutating c.state legal))
          | inr room ↦ rw room (record {
            legal = legal;
            within = ground arith;
            iteration = refl;
            counted = counted_now;
            mutations = refl;
            verifications = refl;
            excused = inl refl;
          })
        ])

  charge-verification : is_legal c.state verifying ≡ true → Charges c (charge c verifying)
  unfolding charge same_state validate_terminal_stop_reason
  charge-verification legal =
      rw (consume_verification_lem c.budget v.within, charge)
        (elim (Bool-cases (leb c.budget.max_verifications c.budget.verifications_used)) [
          | inl full ↦ rw full (
              charge-refused verification_budget_exhausted refl
                (legal_failed-verifying c.state legal))
          | inr room ↦ rw room (record {
            legal = legal;
            within = ground arith;
            iteration = refl;
            counted = counted_now;
            mutations = refl;
            verifications = refl;
            excused = inl refl;
          })
        ])

  -- Whatever the legal target, the charge keeps the sums.
  pub charge-Charges :
      (target : State) → is_legal c.state target ≡ true → Charges c (charge c target)
  unfolding charge same_state
  charge-Charges context_assembling legal = charge-iteration legal
  charge-Charges mutating legal = charge-mutation legal
  charge-Charges verifying legal = charge-verification legal
  charge-Charges target legal = charge-granted target refl refl refl legal
