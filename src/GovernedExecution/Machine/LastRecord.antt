-- ===== src/GovernedExecution/Machine/LastRecord.antt =====
-- The step that wrote the last record of a genuine context.
use eag.Prelude.{◌+◌, ◌≡◌, refl, ap, sym, ◌∙◌, true, none, List, [], ◌∷◌, ◌++◌, arith, ok, length}
use eag.GovernedExecution.State.{
  State, context_assembling, mutating, verifying, same_state, is_legal,
}
use eag.GovernedExecution.Reason.{validate_terminal_stop_reason}
use eag.GovernedExecution.Budget
use eag.GovernedExecution.Budget.{
  Budget, consume_iteration_lem, consume_mutation_lem, consume_verification_lem,
}
use eag.GovernedExecution.Ledger.{Record, Context, Walk, start, count_if, walk}
use eag.GovernedExecution.Ledger.Walks.{summary, step_walk, Follows, reason_of, reason_of-append}
use eag.GovernedExecution.Machine.{charge, or_else, next_record, next_context, attempt, accept}
use eag.GovernedExecution.Machine.Charging.{IsValid}
use eag.GovernedExecution.Machine.Transitions.{attempt_exact, successor}

-- The counters that entering the target leaves.
abbrev entered : Budget → State → Budget
entered b target = record b {
  iterations_used = count_if (same_state target context_assembling) b.iterations_used;
  mutations_used = count_if (same_state target mutating) b.mutations_used;
  verifications_used = count_if (same_state target verifying) b.verifications_used;
}

-- Where the entered counters are within the limits, nothing is exhausted.
charge_room :
    (c : Context) (target : State)
    → IsValid c
    → Budget.IsValid (entered c.budget target)
    → charge c target ≡ record {
      target = target;
      budget = entered c.budget target;
      iteration = count_if (same_state target context_assembling) c.iteration;
      exhausted = none;
    }
unfolding charge same_state
charge_room c context_assembling v w =
    rw (consume_iteration_lem c.budget v.within, charge)
      (ground (arith, v.genuine.consistent.counted))
charge_room c mutating v w = rw (consume_mutation_lem c.budget v.within, charge) (ground arith)
charge_room c verifying v w = rw (consume_verification_lem c.budget v.within, charge) (ground arith)
charge_room c _ v w = refl

-- The context before its last record.
abbrev pub before : Context → List Record → Walk → Context
before c rs w = record c {
  state = w.state;
  iteration = w.iteration;
  budget = record c.budget {
    iterations_used = w.iteration;
    mutations_used = w.mutations;
    verifications_used = w.verifications;
  };
  history = rs;
  evidence = w.evidence;
  stop_reason = reason_of rs;
}

module _ (c : Context) (v : IsValid c) (rs : List Record) (r : Record) (w : Walk)
    (split : c.history ≡ rs ++ r ∷ []) (walked : walk 1 start rs ≡ ok w)
    (follows : Follows (1 + length rs) w r) (sums : summary c ≡ step_walk w r) where
  abbrev pub d : Context
  d = before c rs w

  iteration_now : c.iteration ≡ count_if (same_state r.to_state context_assembling) w.iteration
  iteration_now = ap (λ u. u.iteration) sums

  mutations_now : c.budget.mutations_used ≡ count_if (same_state r.to_state mutating) w.mutations
  mutations_now = ap (λ u. u.mutations) sums

  verifications_now :
      c.budget.verifications_used ≡ count_if (same_state r.to_state verifying) w.verifications
  verifications_now = ap (λ u. u.verifications) sums

  counted : c.iteration ≡ c.budget.iterations_used
  counted = v.genuine.consistent.counted

  d_within : Budget.IsValid d.budget
  d_within = record {
    some_iterations = v.within.some_iterations;
    some_mutations = v.within.some_mutations;
    some_verifications = v.within.some_verifications;
    iterations_within = ground (arith, iteration_now, counted, v.within.iterations_within);
    mutations_within = ground (arith, mutations_now, v.within.mutations_within);
    verifications_within = ground (arith, verifications_now, v.within.verifications_within);
  }

  pub d-IsValid : IsValid d
  d-IsValid = record {
    genuine = record {
      named = v.genuine.named;
      run = v.genuine.run;
      aimed = v.genuine.aimed;
      consistent = record { walked = walked; counted = refl; reason = refl };
    };
    within = d_within;
  }

  entered_now : entered d.budget r.to_state ≡ c.budget
  entered_now = cc (iteration_now, counted, mutations_now, verifications_now)

  c_state : c.state ≡ r.to_state
  c_state = ap (λ u. u.state) sums

  charged :
      charge d r.to_state
      ≡ record { target = r.to_state; budget = c.budget; iteration = c.iteration; exhausted = none }
  charged =
      charge_room d r.to_state d-IsValid (rw entered_now v.within) ∙ cc (entered_now, iteration_now)

  legal_now : is_legal d.state r.to_state ≡ true
  legal_now = ap (λ s. is_legal s r.to_state) (sym follows.from_state) ∙ follows.legal

  -- The record that the machine writes is the last one of the history.
  record_now :
      next_record r.occurred_at d
        (record {
          target = r.to_state;
          budget = c.budget;
          iteration = c.iteration;
          exhausted = none;
        })
        r.evidence
        r.reason
      ≡ r
  record_now =
      ground (arith, follows.sequence, follows.from_state, follows.iteration, iteration_now)

  context_now :
      next_context d
        (record {
          target = r.to_state;
          budget = c.budget;
          iteration = c.iteration;
          exhausted = none;
        })
        r
      ≡ c
  context_now = cc (
    c_state,
    split,
    ap (λ u. u.evidence) sums,
    v.genuine.consistent.reason,
    ap reason_of split,
    reason_of-append rs r,
  )

  successor-before : successor r.occurred_at d d-IsValid r.to_state r.evidence r.reason ≡ c
  successor-before =
      ap
        (λ p.
          next_context d p
            (next_record r.occurred_at d p r.evidence (or_else p.exhausted r.reason)))
        charged
      ∙ ap
          (next_context d (record {
            target = r.to_state;
            budget = c.budget;
            iteration = c.iteration;
            exhausted = none;
          }))
          record_now
      ∙ context_now

  fits_now :
      validate_terminal_stop_reason
        (charge d r.to_state).target
        (or_else (charge d r.to_state).exhausted r.reason)
      ≡ ok tt
  fits_now =
      ap (λ p. validate_terminal_stop_reason p.target (or_else p.exhausted r.reason)) charged
      ∙ follows.reason

  pub attempt-before : attempt r.occurred_at d r.to_state r.evidence r.reason ≡ accept c
  attempt-before =
      attempt_exact r.occurred_at d d-IsValid r.to_state r.evidence r.reason
      ∙ rw (legal_now, fits_now) (ap accept successor-before)
