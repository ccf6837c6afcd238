-- ===== src/Approval/Tests.antt =====
-- One command that is asked for, approved, reserved and consumed, and the theorems at it.
use eag.Prelude.{◌≡◌, refl, ℕ, ◌≤◌, Bool, true, none, some, List, [], ◌∷◌, ok, ◌==◌}
use eag.Approval.Models.{
  approval_approved, ApprovalRequest, Draft, pending, mutating, require_approval, not_found,
  new_approval_request, is_due, same_status,
}
use eag.Approval.Store.Memory.{
  in_memory_store, in_memory_store-IsLawful, is_keyed, get, put, add, save, transition,
}
use eag.Approval.Manager.{
  Manager, create, approve, reject, reserve, release, consume, expire, expire_if_needed,
}
use eag.Approval.Manager.Answers.{approving, reserving, consuming, answer, run, IsAnswered}
use eag.Approval.Manager.Answers.Refinement.{run-found}
use eag.Approval.Manager.Lifecycle.{
  is_ok, is_through, Action, creating, operating, perform, perform_all, successes, succeeds,
  is_consuming, is_approving,
}
use eag.Approval.Manager.Lifecycle.Histories.{IsPath, perform_all-IsPath, consumed_once}

-- Commands are numbers here.
abbrev same : ℕ → ℕ → Bool
same a b = a == b

abbrev draft : Draft ℕ
draft = record {
  command = 7;
  classification = mutating;
  policy_outcome = require_approval;
  policy_reason = "mutates";
  matched_rule = "rule";
  expires_at = some 100;
  now = 1;
  uuid = "a";
}

abbrev asked : ApprovalRequest ℕ
asked = record {
  id = "a";
  command = 7;
  classification = mutating;
  policy_outcome = require_approval;
  policy_reason = "mutates";
  matched_rule = "rule";
  status = pending;
  created_at = 1;
  expires_at = some 100;
  decided_at = none;
  consumed_at = none;
  decision_reason = none;
}

abbrev start : Manager (in_memory_store ℕ)
start = record { store = []; event_bus = some []; handlers = λ events. none }

abbrev waiting : Manager (in_memory_store ℕ)
waiting = record { store = ("a", asked) ∷ []; event_bus = none; handlers = λ events. none }

-- Consumed for another command, for its own, and again.
abbrev history : List (Action ℕ)
history =
    creating draft
    ∷ operating (approving "a" none 2)
    ∷ operating (reserving "a" 7 3)
    ∷ operating (consuming "a" 8 4)
    ∷ operating (reserving "a" 7 5)
    ∷ operating (consuming "a" 7 6)
    ∷ operating (consuming "a" 7 7)
    ∷ []

all_code : Unit {0}
unfolding get put add save transition create approve reject reserve release consume expire
    expire_if_needed new_approval_request is_due same_status run perform succeeds answer
all_code = tt

consumed_in_history : successes same is_consuming is_ok "a" history start ≡ 1
unfolding all_code
consumed_in_history = refl

-- A handler of every approval raises, and the consumption succeeds all the same.
abbrev refusing : Manager (in_memory_store ℕ)
refusing = record start {
  handlers = λ events. elim events [ approval_approved r ∷ rest ↦ some "no" | _ ↦ none ];
}

approved_by_exception :
    (successes same is_consuming is_ok "a" history refusing ≡ 1)
    × (successes same is_approving is_ok "a" history refusing ≡ 0)
    × (successes same is_approving is_through "a" history refusing ≡ 1)
unfolding all_code
approved_by_exception = (refl, refl, refl)

run-found_example :
    IsAnswered
      (λ s. is_keyed s ≡ true)
      waiting
      "a"
      (answer same (approving "a" (some "fine") 5) asked)
      (run same (approving "a" (some "fine") 5) waiting)
unfolding get
run-found_example =
    run-found in_memory_store-IsLawful same (approving "a" (some "fine") 5) waiting asked refl refl

perform_all-IsPath_example :
    (is_keyed (perform_all same history waiting).store ≡ true)
    × (q : ApprovalRequest ℕ) × (get (perform_all same history waiting).store "a" ≡ ok q)
    × IsPath asked q
unfolding get
perform_all-IsPath_example =
    perform_all-IsPath in_memory_store-IsLawful same "a" history waiting asked refl refl

consumed_once_example :
    (successes same is_consuming is_ok "a" history start ≤ 1)
    × (successes same is_consuming is_ok "a" history start
        ≤ successes same is_approving is_through "a" history start)
unfolding get
consumed_once_example =
    consumed_once in_memory_store-IsLawful same "a" history start (not_found "a") refl refl
