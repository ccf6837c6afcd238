-- ===== src/GovernedExecution/Machine/Rebuild.antt =====
-- Every context that the constructors accept is the end of a run of the machine.
use mathlib.Core.Path.{subst}
use eag.Prelude.{
  length-eq_zero, ◌↔◌, ℕ, zero, suc, ◌+◌, ◌≡◌, refl, ap, sym, ◌∙◌, false, List, [], ◌∷◌, arith,
  String, is_blank, ok, ok-injective, length, length-append, Snoc, empty, snoc, Snoc-view,
}
use eag.GovernedExecution.Budget
use eag.GovernedExecution.Budget.{
  Budget, consume_iteration_lem, consume_mutation_lem, consume_verification_lem,
}
use eag.GovernedExecution.Ledger.{Record, Context, start, make_context, walk}
use eag.GovernedExecution.Ledger.Walks.{summary, walk-append_inv, check_record-Follows, reason_of}
use eag.GovernedExecution.Ledger.Validation.{IsGenuine-make_context, make_context-IsGenuine}
use eag.GovernedExecution.Machine.Charging.{IsValid}
use eag.GovernedExecution.Machine.Runs.{
  initial, initial-IsValid, origin, Reach-origin, Reach, here, next, Reach-IsValid,
}
use eag.GovernedExecution.Machine.LastRecord.{before, d-IsValid, attempt-before}

empty-origin : (c : Context) → IsValid c → c.history ≡ [] → origin c ≡ c
unfolding walk
empty-origin c v e =
    let sums : start ≡ summary c =
      ok-injective (ap (walk 1 start) (sym e) ∙ v.genuine.consistent.walked) in
    cc (
      ap (λ u. u.state) sums,
      ap (λ u. u.iteration) sums,
      ap (λ u. u.mutations) sums,
      ap (λ u. u.verifications) sums,
      ap (λ u. u.evidence) sums,
      v.genuine.consistent.counted,
      v.genuine.consistent.reason,
      ap reason_of e,
    )

-- The run to a context whose history has one more record than a run that is known.
extend :
    (n : ℕ) (c : Context) {l : List Record}
    → IsValid c
    → Snoc l
    → c.history ≡ l
    → length l ≡ suc n
    → ((d : Context) → IsValid d → length d.history ≡ n → Reach (origin d) d)
    → Reach (origin c) c
extend n c v empty e long runs = absurd (omega arith)
extend n c v (snoc rs r) e long runs =
    let (w, walked, checked) =
      walk-append_inv 1 start rs r (summary c)
        (ap (walk 1 start) (sym e) ∙ v.genuine.consistent.walked) in
    let (follows, sums) = check_record-Follows (1 + length rs) w r (summary c) checked in
    let run =
      runs (before c rs w) (d-IsValid c v rs r w e walked follows sums)
        (omega (arith, length-append rs (r ∷ []))) in
    let accepted = attempt-before c v rs r w e walked follows sums in
    next run r.occurred_at r.to_state r.evidence r.reason (ap (λ t. t.accepted) accepted)
      (ap (λ t. t.context) (sym accepted))

rebuild : (n : ℕ) (c : Context) → IsValid c → length c.history ≡ n → Reach (origin c) c
rebuild zero c v e = subst (Reach (origin c)) (empty-origin c v (length-eq_zero c.history e)) here
rebuild (suc n) c v e = extend n c v (Snoc-view c.history) refl e (rebuild n)

-- Take three identifiers that are not blank and a budget's limits. The contexts that the
-- constructor accepts, with these identifiers and limits and a budget that its constructor
-- accepts, are exactly the ends of the runs of accepted transitions from the created context.
pub ledger_exact :
    (execution_id run_id goal : String) (limits : Budget)
    → is_blank execution_id ≡ false
    → is_blank run_id ≡ false
    → is_blank goal ≡ false
    → Budget.IsValid limits
    → (c : Context)
    → ((make_context c ≡ ok c)
        × Budget.IsValid c.budget
        × (origin c ≡ initial execution_id run_id goal limits))
      ↔ Reach (initial execution_id run_id goal limits) c
ledger_exact e r g limits he hr hg within c =
    let start_valid = initial-IsValid e r g limits he hr hg within in
    (
      λ (made, inside, same).
          subst (λ o. Reach o c) same
            (rebuild (length c.history) c
              (record { genuine = (make_context-IsGenuine c c made).0; within = inside }) refl),
      λ run.
          let v = Reach-IsValid start_valid run in
          (IsGenuine-make_context c v.genuine, v.within, Reach-origin start_valid run),
    )
