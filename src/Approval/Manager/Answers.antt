-- ===== src/Approval/Manager/Answers.antt =====
-- What src/eag/approval/manager.py promises of one request: a table over the status that the request
-- is found in, and the calls read off it.
pub mod Branches
pub mod Decisions
pub mod Reservations
pub mod Refinement
use text.Mathlib.Text.{◌==◌ as str_eq}
use eag.Prelude.{
  ◌≡◌, ℕ, Bool, true, false, Option, none, some, List, String, Result, ok, err, if◌then◌else◌,
}
use eag.Approval.Models.{
  ApprovalStatus, pending, approved, reserved, rejected, consumed, expired, ApprovalRequest,
  ApprovalError, expired_request, command_mismatch, not_due, invalid_transition, cannot_expire,
  ApprovalEvent, approval_approved, approval_rejected, approval_expired, approval_consumed,
  approval_reserved, approval_released, is_expired,
}
use eag.Approval.Store.{ApprovalStore}
use eag.Approval.Manager.{
  Manager, Call, published, heard, told, approve, reject, reserve, release, consume, expire,
}

-- The calls on a request that exists.
pub data Operation (Command : Type 0) : Type 0 where
  approving rejecting : (id : String) (reason : Option String) (now : ℕ) → Operation Command
  reserving consuming : (id : String) (command : Command) (now : ℕ) → Operation Command
  releasing : (id : String) → Operation Command
  expiring : (id : String) (now : ℕ) → Operation Command

pub record Answer (Command : Type 0) : Type 0 where
  pub stored : ApprovalRequest Command
  pub event : Option (ApprovalEvent Command)
  pub result : Result ApprovalError (ApprovalRequest Command)

module _ {Command : Type 0} where
  abbrev pub target : Operation Command → String
  target (approving id reason now) = id
  target (rejecting id reason now) = id
  target (reserving id command now) = id
  target (consuming id command now) = id
  target (releasing id) = id
  target (expiring id now) = id

  abbrev pub refused : ApprovalRequest Command → ApprovalError → Answer Command
  refused r e = record { stored = r; event = none; result = err e }

  abbrev pub granted :
      (ApprovalRequest Command → ApprovalEvent Command) → ApprovalRequest Command → Answer Command
  granted event r = record { stored = r; event = some (event r); result = ok r }

  -- The request is past its time: its expiry is stored and published all the same.
  abbrev pub lapsed : ApprovalRequest Command → String → Answer Command
  lapsed r id = record {
    stored = record r { status = expired };
    event = some (approval_expired (record r { status = expired }));
    result = err (expired_request id);
  }

  -- A call that first lets a request lapse: by status, what happens when it has not.
  abbrev pub unless_lapsed :
      ApprovalRequest Command → String → ℕ → ApprovalStatus → Answer Command → Answer Command
  unless_lapsed r id now expired otherwise = refused r (expired_request id)
  unless_lapsed r id now pending otherwise = if is_expired r now then lapsed r id else otherwise
  unless_lapsed r id now approved otherwise = if is_expired r now then lapsed r id else otherwise
  unless_lapsed r id now _ otherwise = otherwise

  abbrev pub approving_answer :
      ApprovalRequest Command → Option String → ℕ → ApprovalStatus → Answer Command
  approving_answer r reason now pending =
      granted approval_approved
        (record r { status = approved; decided_at = some now; decision_reason = reason })
  approving_answer r reason now s = refused r (invalid_transition "approve" s pending)

  abbrev pub rejecting_answer :
      ApprovalRequest Command → Option String → ℕ → ApprovalStatus → Answer Command
  rejecting_answer r reason now pending =
      granted approval_rejected
        (record r { status = rejected; decided_at = some now; decision_reason = reason })
  rejecting_answer r reason now s = refused r (invalid_transition "reject" s pending)

  abbrev pub reserving_answer : ApprovalRequest Command → ApprovalStatus → Answer Command
  reserving_answer r approved = granted approval_reserved (record r { status = reserved })
  reserving_answer r s = refused r (invalid_transition "reserve" s approved)

  abbrev pub releasing_answer : ApprovalRequest Command → ApprovalStatus → Answer Command
  releasing_answer r reserved = granted approval_released (record r { status = approved })
  releasing_answer r s = refused r (invalid_transition "release" s reserved)

  -- For another command the reservation is given back.
  abbrev pub consuming_answer :
      ApprovalRequest Command → String → ℕ → ApprovalStatus → Bool → Answer Command
  consuming_answer r id now reserved true =
      granted approval_consumed (record r { status = consumed; consumed_at = some now })
  consuming_answer r id now reserved false = record {
    stored = record r { status = approved };
    event = some (approval_released (record r { status = approved }));
    result = err (command_mismatch id);
  }
  consuming_answer r id now s _ = refused r (invalid_transition "consume" s reserved)

  abbrev pub expiring_answer :
      ApprovalRequest Command → String → Bool → ApprovalStatus → Answer Command
  expiring_answer r id due pending =
      if due
      then granted approval_expired (record r { status = expired })
      else refused r (not_due id)
  expiring_answer r id due approved =
      if due
      then granted approval_expired (record r { status = expired })
      else refused r (not_due id)
  expiring_answer r id due s = refused r (cannot_expire s)

  abbrev pub announced :
      Option (ApprovalEvent Command)
      → Option (List (ApprovalEvent Command))
      → Option (List (ApprovalEvent Command))
  announced none bus = bus
  announced (some event) bus = published event bus

  unfoldable pub answer :
      (Command → Command → Bool) → Operation Command → ApprovalRequest Command → Answer Command
  answer same (approving id reason now) r =
      unless_lapsed r id now r.status (approving_answer r reason now r.status)
  answer same (rejecting id reason now) r =
      unless_lapsed r id now r.status (rejecting_answer r reason now r.status)
  answer same (reserving id command now) r = unless_lapsed r id now r.status (
      if same r.command command
      then reserving_answer r r.status
      else refused r (command_mismatch id))
  answer same (consuming id command now) r =
      unless_lapsed r id now r.status (consuming_answer r id now r.status (same r.command command))
  answer same (releasing id) r = releasing_answer r r.status
  answer same (expiring id now) r = expiring_answer r id (is_expired r now) r.status

module _ {Command : Type 0} {S : ApprovalStore Command} where
  -- The manager's method.
  unfoldable pub run :
      (Command → Command → Bool) → Operation Command → Call S (ApprovalRequest Command)
  run same (approving id reason now) = approve id reason now
  run same (rejecting id reason now) = reject id reason now
  run same (reserving id command now) = reserve same id command now
  run same (consuming id command now) = consume same id command now
  run same (releasing id) = release id
  run same (expiring id now) = expire id now

  -- What the handlers raise over the event of an answer.
  abbrev pub raised_by : Option (ApprovalEvent Command) → Manager S → Option String
  raised_by none m = none
  raised_by (some event) m = heard (published event m.event_bus) m.handlers

  -- A call has answered for the request at `k` and changed nothing else; where a handler of its
  -- event raises, that takes the place of the result.
  pub record IsAnswered (Valid : S.State → Type 0) (m : Manager S) (k : String) (a : Answer Command)
      (out : Manager S × Result ApprovalError (ApprovalRequest Command)) : Type 0 where
    pub valid : Valid out.0.store
    pub held :
        (j : String) → S.get out.0.store j ≡ (if str_eq j k then ok a.stored else S.get m.store j)
    pub announced_by : out.0.event_bus ≡ announced a.event m.event_bus
    pub heard_by : out.0.handlers ≡ m.handlers
    pub answered : out.1 ≡ told (raised_by a.event m) a.result
