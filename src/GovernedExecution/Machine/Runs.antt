-- ===== src/GovernedExecution/Machine/Runs.antt =====
-- Runs of the transition machine from a context that has just been created.
use eag.Prelude.{
  ℕ, ◌≡◌, refl, ap, ◌∙◌, true, false, Option, none, List, [], arith, String, is_blank,
}
use eag.GovernedExecution.State.{
  State, created, context_assembling, mutating, verifying, StopReason,
}
use eag.GovernedExecution.Budget
use eag.GovernedExecution.Budget.{
  Budget, consume_iteration_lem, consume_mutation_lem, consume_verification_lem,
}
use eag.GovernedExecution.Ledger.{Evidence, Context, walk}
use eag.GovernedExecution.Machine.{charge, attempt}
use eag.GovernedExecution.Machine.Charging.{IsValid}
use eag.GovernedExecution.Machine.Transitions.{attempt-IsValid, attempt-accepted}

-- The context that the constructor makes of three identifiers and a budget's limits.
abbrev pub initial : String → String → String → Budget → Context
initial execution_id run_id goal limits = record {
  execution_id = execution_id;
  run_id = run_id;
  goal = goal;
  state = created;
  iteration = 0;
  budget = record limits { iterations_used = 0; mutations_used = 0; verifications_used = 0 };
  history = [];
  evidence = [];
  stop_reason = none;
}

-- A run: accepted transitions, one behind the other.
pub data Reach (origin : Context) : Context → Type 0 where
  here : Reach origin origin
  next :
      {c d : Context}
      → Reach origin c
      → (now : ℕ) (target : State) (evidence : List Evidence) (stop_reason : Option StopReason)
      → (attempt now c target evidence stop_reason).accepted ≡ true
      → d ≡ (attempt now c target evidence stop_reason).context
      → Reach origin d

pub initial-IsValid :
    (execution_id run_id goal : String) (limits : Budget)
    → is_blank execution_id ≡ false
    → is_blank run_id ≡ false
    → is_blank goal ≡ false
    → Budget.IsValid limits
    → IsValid (initial execution_id run_id goal limits)
unfolding walk
initial-IsValid e r g limits he hr hg v = record {
  genuine = record {
    named = he;
    run = hr;
    aimed = hg;
    consistent = record { walked = refl; counted = refl; reason = refl };
  };
  within = ground arith;
}

-- Every context on a run that starts at a valid context is valid.
pub Reach-IsValid : {o c : Context} → IsValid o → Reach o c → IsValid c
Reach-IsValid v here = v
Reach-IsValid v (next {c = c} run now target evidence stop_reason h e) =
    rw e (attempt-IsValid now c (Reach-IsValid v run) target evidence stop_reason)

-- The created context that has the identifiers and the limits of a context.
abbrev pub origin : Context → Context
origin c = initial c.execution_id c.run_id c.goal c.budget

abbrev limits : Budget → Budget
limits b = record b { iterations_used = 0; mutations_used = 0; verifications_used = 0 }

limits-charge :
    (c : Context) (target : State) → IsValid c → limits (charge c target).budget ≡ limits c.budget
unfolding charge
limits-charge c context_assembling v =
    rw (consume_iteration_lem c.budget v.within, charge) (ground arith)
limits-charge c mutating v = rw (consume_mutation_lem c.budget v.within, charge) (ground arith)
limits-charge c verifying v = rw (consume_verification_lem c.budget v.within, charge) (ground arith)
limits-charge c _ v = refl

attempt-origin :
    (now : ℕ) (c : Context)
    → IsValid c
    → (target : State) (evidence : List Evidence) (stop_reason : Option StopReason)
    → (attempt now c target evidence stop_reason).accepted ≡ true
    → origin (attempt now c target evidence stop_reason).context ≡ origin c
attempt-origin now c v target evidence stop_reason h =
    let (legal, fits, e) = attempt-accepted now c v target evidence stop_reason h in
    rw e (ap (initial c.execution_id c.run_id c.goal) (limits-charge c target v))

-- No run changes the identifiers or the limits.
pub Reach-origin : {o c : Context} → IsValid o → Reach o c → origin c ≡ origin o
Reach-origin v here = refl
Reach-origin v (next {c = c} run now target evidence stop_reason h e) =
    rw e (
      attempt-origin now c (Reach-IsValid v run) target evidence stop_reason h ∙ Reach-origin v run)
