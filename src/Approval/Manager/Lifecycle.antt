-- ===== src/Approval/Manager/Lifecycle.antt =====
-- Histories of calls of src/eag/approval/manager.py: creations and calls on identifiers, in any
-- order, with any arguments and clock readings, those that raise included.
pub mod Steps
pub mod Effects
pub mod Histories
use text.Mathlib.Text.{◌==◌ as str_eq}
use eag.Prelude.{
  ◌≡◌, ℕ, ◌+◌, Bool, true, false, ◌&&◌, ◌||◌, Option, none, some, List, [], ◌∷◌, String, Result, ok,
  err, if◌then◌else◌,
}
use eag.Approval.Models.{
  ApprovalStatus, pending, approved, reserved, rejected, consumed, expired, ApprovalRequest,
  ApprovalError, handler, Draft, is_terminal, same_status,
}
use eag.Approval.Store.{ApprovalStore}
use eag.Approval.Manager.{Manager, Call, create}
use eag.Approval.Manager.Answers.{Operation, approving, consuming, target, answer, run, Answer}

pub data Action (Command : Type 0) : Type 0 where
  creating : Draft Command → Action Command
  operating : Operation Command → Action Command

-- The arrows of the lifecycle.
abbrev pub leads_to : ApprovalStatus → ApprovalStatus → Bool
leads_to pending approved = true
leads_to pending rejected = true
leads_to pending expired = true
leads_to approved reserved = true
leads_to approved expired = true
leads_to reserved approved = true
leads_to reserved consumed = true
leads_to _ _ = false

abbrev pub is_ok : {A : Type 0} → Result ApprovalError A → Bool
is_ok (ok a) = true
is_ok (err e) = false

-- The call did what it means to do: it returns, or only a handler of the event raises.
abbrev pub is_through : {A : Type 0} → Result ApprovalError A → Bool
is_through (ok a) = true
is_through (err (handler text)) = true
is_through (err e) = false

module _ {Command : Type 0} where
  abbrev pub is_consuming : Operation Command → Bool
  is_consuming (consuming id command now) = true
  is_consuming _ = false

  abbrev pub is_approving : Operation Command → Bool
  is_approving (approving id reason now) = true
  is_approving _ = false

  -- A call on `k` of a kind whose result passes a test.
  unfoldable pub succeeds :
      (Operation Command → Bool)
      → (Result ApprovalError (ApprovalRequest Command) → Bool)
      → String
      → Action Command
      → Result ApprovalError (ApprovalRequest Command)
      → Bool
  succeeds kind test k (creating draft) result = false
  succeeds kind test k (operating op) result = str_eq k (target op) && (kind op && test result)

module _ {Command : Type 0} {S : ApprovalStore Command} (same : Command → Command → Bool) where
  unfoldable pub perform : Action Command → Call S (ApprovalRequest Command)
  perform (creating draft) = create draft
  perform (operating op) = run same op

  abbrev pub perform_all : List (Action Command) → Manager S → Manager S
  perform_all [] m = m
  perform_all (a ∷ l) m = perform_all l (perform a m).0

  -- How many calls on `k` of a kind have a result that passes the test, in a history.
  abbrev pub successes :
      (Operation Command → Bool)
      → (Result ApprovalError (ApprovalRequest Command) → Bool)
      → String
      → List (Action Command)
      → Manager S
      → ℕ
  successes kind test k [] m = 0
  successes kind test k (a ∷ l) m =
      (if succeeds kind test k a (perform a m).1 then 1 else 0)
      + successes kind test k l (perform a m).0
