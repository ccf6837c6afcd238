-- ===== src/GovernedExecution/Reason.antt =====
-- `_validate_terminal_stop_reason` of src/eag/governed_execution/models.py.
use mathlib.Core.Path.{subst}
use eag.Prelude.{
  Bool, err-injective, ◌≡◌, refl, arith, true, false, Option, none, some, Result, ok, err,
}
use eag.GovernedExecution.State.{
  State, completed, failed, aborted, StopReason, success, user_aborted, is_terminal,
}
use eag.GovernedExecution.Failure.{
  Failure, reason_not_terminal, reason_missing, reason_not_success, reason_not_aborted,
  reason_not_failure,
}

-- The tests on a terminal state whose reason is given.
check_reason : State → StopReason → Result Failure (Unit {0})
check_reason completed success = ok tt
check_reason completed _ = err reason_not_success
check_reason aborted user_aborted = ok tt
check_reason aborted _ = err reason_not_aborted
check_reason failed success = err reason_not_failure
check_reason failed user_aborted = err reason_not_failure
check_reason _ _ = ok tt

-- The cases of the target being terminal or not, and of the reason.
judge : Bool → State → Option StopReason → Result Failure (Unit {0})
unfolding check_reason
judge false target none = ok tt
judge false target (some reason) = err reason_not_terminal
judge true target none = err reason_missing
judge true target (some reason) = check_reason target reason

unfoldable pub validate_terminal_stop_reason : State → Option StopReason → Result Failure (Unit {0})
unfolding judge is_terminal
validate_terminal_stop_reason target stop_reason = judge (is_terminal target) target stop_reason

-- Only a terminal state has a reason.
pub not_terminal-reason :
    (target : State) (reason : Option StopReason)
    → is_terminal target ≡ false
    → validate_terminal_stop_reason target reason ≡ ok tt
    → reason ≡ none
unfolding validate_terminal_stop_reason
not_terminal-reason target none t h = refl
not_terminal-reason target (some reason) t h = ground arith

-- The five refusals of the contract.
pub data IsRefusal : Failure → Type 0 where
  not_terminal : IsRefusal reason_not_terminal
  missing : IsRefusal reason_missing
  not_success : IsRefusal reason_not_success
  not_aborted : IsRefusal reason_not_aborted
  not_failure : IsRefusal reason_not_failure

check_reason-IsRefusal :
    (target : State) (reason : StopReason) (e : Failure)
    → check_reason target reason ≡ err e
    → IsRefusal e
unfolding check_reason
check_reason-IsRefusal completed success e h = cc
check_reason-IsRefusal completed _ e h = subst IsRefusal (err-injective h) not_success
check_reason-IsRefusal aborted user_aborted e h = cc
check_reason-IsRefusal aborted _ e h = subst IsRefusal (err-injective h) not_aborted
check_reason-IsRefusal failed success e h = subst IsRefusal (err-injective h) not_failure
check_reason-IsRefusal failed user_aborted e h = subst IsRefusal (err-injective h) not_failure
check_reason-IsRefusal _ _ e h = cc

judge-IsRefusal :
    (terminal : Bool) (target : State) (reason : Option StopReason) (e : Failure)
    → judge terminal target reason ≡ err e
    → IsRefusal e
unfolding judge
judge-IsRefusal false target none e h = cc
judge-IsRefusal false target (some r) e h = subst IsRefusal (err-injective h) not_terminal
judge-IsRefusal true target none e h = subst IsRefusal (err-injective h) missing
judge-IsRefusal true target (some r) e h = check_reason-IsRefusal target r e h

pub validate-IsRefusal :
    (target : State) (reason : Option StopReason) (e : Failure)
    → validate_terminal_stop_reason target reason ≡ err e
    → IsRefusal e
unfolding validate_terminal_stop_reason
validate-IsRefusal target reason e h = judge-IsRefusal (is_terminal target) target reason e h

-- A terminal state has a reason.
pub terminal-reason :
    (target : State)
    → validate_terminal_stop_reason target none ≡ ok tt
    → is_terminal target ≡ false
unfolding validate_terminal_stop_reason
terminal-reason target h = ground arith
