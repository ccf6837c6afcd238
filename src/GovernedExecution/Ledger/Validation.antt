-- ===== src/GovernedExecution/Ledger/Validation.antt =====
-- `_validate_history` accepts a context exactly when the context is what its history sums up to.
use eag.Prelude.{
  is_empty, is_blank, ◌≡◌, refl, ap, sym, ◌∙◌, true, false, Option, none, some, List, [], ◌∷◌,
  arith, ok, >>=-eq-ok, Bool-cases, inl, inr,
}
use eag.GovernedExecution.State.{created, StopReason, is_terminal, same_state→eq, same_state_refl}
use eag.GovernedExecution.Reason.{not_terminal-reason, validate_terminal_stop_reason}
use eag.GovernedExecution.Ledger.{
  Evidence, Record, Context, Walk, start, walk, check_end, is_none, is_empty,
  validate_initial_context, final, check_history, validate_history, make_context,
}
use eag.GovernedExecution.Ledger.Walks.{summary, reason_of, walk-final}
use eag.GovernedExecution.Ledger.Compare.{
  same_all→eq, same_all_refl, same_reason→eq, same_reason_refl,
}

-- The context agrees with its history.
pub record IsConsistent (c : Context) : Type 0 where
  pub walked : walk 1 start c.history ≡ ok (summary c)
  pub counted : c.iteration ≡ c.budget.iterations_used
  pub reason : c.stop_reason ≡ reason_of c.history

is_empty→eq : (l : List Evidence) → is_empty l ≡ true → l ≡ []
is_empty→eq [] h = refl
is_empty→eq (a ∷ l) h = cc

is_none→eq : (r : Option StopReason) → is_none r ≡ true → r ≡ none
is_none→eq none h = refl
is_none→eq (some r) h = cc

initial-IsConsistent :
    (c : Context) → c.history ≡ [] → validate_initial_context c ≡ ok tt → IsConsistent c
unfolding validate_initial_context walk
initial-IsConsistent c e h = record {
  walked =
      ground
        (arith, same_state→eq c.state created, is_empty→eq c.evidence, is_none→eq c.stop_reason);
  counted = ground arith;
  reason = rw e (ground (arith, is_none→eq c.stop_reason));
}

-- What the tests behind the loop establish.
record Ends (c : Context) (w : Walk) (reason : Option StopReason) : Type 0 where
  sums : w ≡ summary c
  counted : c.iteration ≡ c.budget.iterations_used
  stopped : is_terminal c.state ≡ true → c.stop_reason ≡ reason
  runs : is_terminal c.state ≡ false → c.stop_reason ≡ none

check_end-Ends :
    (c : Context) (w : Walk) (reason : Option StopReason)
    → check_end c w reason ≡ ok tt
    → Ends c w reason
unfolding check_end
check_end-Ends c w reason h = record {
  sums = ground (arith, same_state→eq w.state c.state, same_all→eq w.evidence c.evidence);
  counted = ground arith;
  stopped = ground (arith, same_reason→eq c.stop_reason reason);
  runs = ground (arith, is_none→eq c.stop_reason);
}

check_end-IsConsistent :
    (c : Context) (r : Record) (rs : List Record) (w : Walk)
    → c.history ≡ r ∷ rs
    → walk 1 start (r ∷ rs) ≡ ok w
    → check_end c w (final r rs).reason ≡ ok tt
    → IsConsistent c
check_end-IsConsistent c r rs w e walked h =
    let ends = check_end-Ends c w (final r rs).reason h in
    record {
      walked = rw e (walked ∙ ap ok ends.sums);
      counted = ends.counted;
      reason = rw e (elim (Bool-cases (is_terminal c.state)) [
        | inl t ↦ ends.stopped t
        | inr f ↦
            ends.runs f
            ∙ sym (
                not_terminal-reason c.state (final r rs).reason f (
                  ap (λ v. validate_terminal_stop_reason v.state (final r rs).reason)
                    (sym ends.sums)
                  ∙ walk-final 1 start r rs w walked))
      ]);
    }

check_history-IsConsistent :
    (c : Context) (rs : List Record) → c.history ≡ rs → check_history c rs ≡ ok tt → IsConsistent c
unfolding check_history
check_history-IsConsistent c [] e h = initial-IsConsistent c e h
check_history-IsConsistent c (r ∷ rs) e h =
    let (w, walked, ended) =
      >>=-eq-ok (walk 1 start (r ∷ rs)) (λ w. check_end c w (final r rs).reason) h in
    check_end-IsConsistent c r rs w e walked ended

-- A context whose history is validated agrees with it.
pub validate_history-IsConsistent : (c : Context) → validate_history c ≡ ok tt → IsConsistent c
unfolding validate_history
validate_history-IsConsistent c h = check_history-IsConsistent c c.history refl h

check_end-summary :
    (c : Context) (reason : Option StopReason)
    → c.iteration ≡ c.budget.iterations_used
    → c.stop_reason ≡ reason
    → (is_terminal c.state ≡ false → reason ≡ none)
    → check_end c (summary c) reason ≡ ok tt
unfolding check_end
check_end-summary c reason counted e runs =
    ground (arith, same_state_refl c.state, same_all_refl c.evidence, same_reason_refl reason)

validate_initial_context-start :
    (c : Context)
    → walk 1 start [] ≡ ok (summary c)
    → c.iteration ≡ c.budget.iterations_used
    → c.stop_reason ≡ none
    → validate_initial_context c ≡ ok tt
unfolding validate_initial_context walk
validate_initial_context-start c e counted unset = ground (arith, same_state_refl created)

IsConsistent-check_history :
    (c : Context) (rs : List Record) → c.history ≡ rs → IsConsistent c → check_history c rs ≡ ok tt
unfolding check_history
IsConsistent-check_history c [] e h =
    validate_initial_context-start c (ap (walk 1 start) (sym e) ∙ h.walked) h.counted
      (h.reason ∙ ap reason_of e)
IsConsistent-check_history c (r ∷ rs) e h =
    let walked : walk 1 start (r ∷ rs) ≡ ok (summary c) = ap (walk 1 start) (sym e) ∙ h.walked in
    rw walked (
      check_end-summary c (final r rs).reason h.counted (h.reason ∙ ap reason_of e) (λ f.
        not_terminal-reason c.state (final r rs).reason f
          (walk-final 1 start r rs (summary c) walked)))

-- A context that agrees with its history passes the validation.
pub IsConsistent-validate_history : (c : Context) → IsConsistent c → validate_history c ≡ ok tt
unfolding validate_history
IsConsistent-validate_history c h = IsConsistent-check_history c c.history refl h

-- A context is made of exactly the fields with three identifiers that are not blank and a history
-- that the other fields sum up.
pub record IsGenuine (c : Context) : Type 0 where
  pub named : is_blank c.execution_id ≡ false
  pub run : is_blank c.run_id ≡ false
  pub aimed : is_blank c.goal ≡ false
  pub consistent : IsConsistent c

pub make_context-IsGenuine : (c c' : Context) → make_context c ≡ ok c' → IsGenuine c × (c' ≡ c)
unfolding make_context
make_context-IsGenuine c c' h = (
  record {
    named = ground arith;
    run = ground arith;
    aimed = ground arith;
    consistent = validate_history-IsConsistent c (ground arith);
  },
  ground arith,
)

pub IsGenuine-make_context : (c : Context) → IsGenuine c → make_context c ≡ ok c
unfolding make_context
IsGenuine-make_context c g = ground (arith, IsConsistent-validate_history c g.consistent)
