-- ===== src/GovernedExecution/Machine/Transitions.antt =====
-- What one transition does to a valid context, on every branch.
use eag.Prelude.{
  ℕ, ◌+◌, ◌≡◌, refl, ap, sym, ◌∙◌, Bool, true, false, Option, List, arith, if◌then◌else◌, Result,
  ok, err, length, Bool-cases, inl, inr,
}
use eag.GovernedExecution.State.{State, StopReason, is_legal}
use eag.GovernedExecution.Reason.{
  IsRefusal, not_terminal, missing, not_success, not_aborted, not_failure, validate-IsRefusal,
  validate_terminal_stop_reason,
}
use eag.GovernedExecution.Failure.{Failure}
use eag.GovernedExecution.Ledger.{Evidence, Record, Context, start, make_record}
use eag.GovernedExecution.Ledger.Walks.{
  summary, walk-append, step_walk, Follows, Follows-check_record, reason_of-append,
}
use eag.GovernedExecution.Ledger.Validation.{IsGenuine, IsGenuine-make_context}
use eag.GovernedExecution.Machine.{
  Charge, charge, or_else, next_record, next_context, advance, advance_charged, attempt, accept,
  reject, conclude, budget_or_validation_code,
}
use eag.GovernedExecution.Machine.Charging.{IsValid, Charges, charge-Charges}

module _ (now : ℕ) (c : Context) (v : IsValid c) (p : Charge) (charges : Charges c p)
    (evidence : List Evidence) (reason : Option StopReason) where
  abbrev appended : Record
  appended = next_record now c p evidence reason

  module _ (fits : validate_terminal_stop_reason p.target reason ≡ ok tt) where
    appended-Follows : Follows (1 + length c.history) (summary c) appended
    appended-Follows = record {
      sequence = omega arith;
      from_state = refl;
      legal = charges.legal;
      iteration = charges.iteration;
      reason = fits;
    }

    step-summary : step_walk (summary c) appended ≡ summary (next_context c p appended)
    step-summary = ground (arith, charges.iteration, charges.mutations, charges.verifications)

    next-IsGenuine : IsGenuine (next_context c p appended)
    next-IsGenuine = record {
      named = v.genuine.named;
      run = v.genuine.run;
      aimed = v.genuine.aimed;
      consistent = record {
        walked =
            walk-append 1 start c.history appended (summary c) v.genuine.consistent.walked
            ∙ Follows-check_record (1 + length c.history) (summary c) appended appended-Follows
            ∙ ap ok step-summary;
        counted = charges.counted;
        reason = sym (reason_of-append c.history appended);
      };
    }

    pub next-IsValid : IsValid (next_context c p appended)
    next-IsValid = record { genuine = next-IsGenuine; within = charges.within }

    pub advance_charged-ok :
        advance_charged now c p evidence reason ≡ ok (next_context c p appended)
    unfolding advance_charged make_record
    advance_charged-ok =
        rw fits (ground (arith, IsGenuine-make_context (next_context c p appended) next-IsGenuine))

abbrev pub is_ok {ℓ κ} : {E : Type ℓ} {A : Type κ} → Result E A → Bool
is_ok (ok a) = true
is_ok (err e) = false

-- The stop reason contract's messages all name the stop reason, and none the budget.
IsRefusal-code : (e : Failure) → IsRefusal e → budget_or_validation_code e ≡ "invalid_stop_reason"
unfolding budget_or_validation_code
IsRefusal-code e not_terminal = refl
IsRefusal-code e missing = refl
IsRefusal-code e not_success = refl
IsRefusal-code e not_aborted = refl
IsRefusal-code e not_failure = refl

is_ok→eq : (m : Result Failure (Unit {0})) → is_ok m ≡ true → m ≡ ok tt
is_ok→eq (ok tt) h = refl
is_ok→eq (err e) h = cc

conclude_exact :
    (now : ℕ) (c : Context) (v : IsValid c) (p : Charge) (charges : Charges c p)
    (evidence : List Evidence) (reason : Option StopReason) (judged : Result Failure (Unit {0}))
    → validate_terminal_stop_reason p.target reason ≡ judged
    → conclude c (advance_charged now c p evidence reason) ≡ (
        if is_ok judged
        then accept (next_context c p (next_record now c p evidence reason))
        else reject c "invalid_stop_reason")
unfolding advance_charged
conclude_exact now c v p charges evidence reason (ok tt) e =
    ap (conclude c) (advance_charged-ok now c v p charges evidence reason e)
conclude_exact now c v p charges evidence reason (err f) e =
    rw (e, advance_charged)
      (ap (reject c) (IsRefusal-code f (validate-IsRefusal p.target reason f e)))

module _ (now : ℕ) (c : Context) (v : IsValid c) (target : State) (evidence : List Evidence)
    (stop_reason : Option StopReason) where
  abbrev pub charged_reason : Option StopReason
  charged_reason = or_else (charge c target).exhausted stop_reason

  -- The context that an accepted transition returns.
  abbrev pub successor : Context
  successor =
      next_context c (charge c target) (next_record now c (charge c target) evidence charged_reason)

  -- A transition of a valid context is rejected as illegal, or for its stop reason, or accepted
  -- with one more record; nothing else can happen.
  pub attempt_exact : attempt now c target evidence stop_reason ≡ (
      if is_legal c.state target
      then if is_ok (validate_terminal_stop_reason (charge c target).target charged_reason)
        then accept successor
        else reject c "invalid_stop_reason"
      else reject c "illegal_transition")
  unfolding attempt advance
  attempt_exact = elim (Bool-cases (is_legal c.state target)) [
    | inl legal ↦ rw legal (
        conclude_exact now c v (charge c target) (charge-Charges c v target legal) evidence
          charged_reason _ refl)
    | inr illegal ↦ rw illegal
  ]

  -- An accepted transition is legal, has a fitting reason, and leads to the successor.
  pub attempt-accepted :
      (attempt now c target evidence stop_reason).accepted ≡ true
      → (is_legal c.state target ≡ true)
        × (validate_terminal_stop_reason (charge c target).target charged_reason ≡ ok tt)
        × ((attempt now c target evidence stop_reason).context ≡ successor)
  attempt-accepted h = ground (
    arith,
    attempt_exact,
    is_ok→eq (validate_terminal_stop_reason (charge c target).target charged_reason),
  )

  attempt-rejected :
      (attempt now c target evidence stop_reason).accepted ≡ false
      → (attempt now c target evidence stop_reason).context ≡ c
  attempt-rejected h = ground (arith, attempt_exact)

  -- A transition of a valid context returns a valid context.
  pub attempt-IsValid : IsValid (attempt now c target evidence stop_reason).context
  attempt-IsValid = elim (Bool-cases (attempt now c target evidence stop_reason).accepted) [
    | inl yes_accepted ↦
        let (legal, fits, e) = attempt-accepted yes_accepted in
        rw e (
          next-IsValid now c v (charge c target) (charge-Charges c v target legal) evidence
            charged_reason fits)
    | inr rejected ↦ rw (attempt-rejected rejected) v
  ]
