-- ===== src/Approval/Models.antt =====
-- src/eag/approval/models.py, errors.py and events.py, and the enumerations of
-- src/eag/execution/classification/models.py. The command is of any type: its equality is made by
-- `dataclass`. A `datetime` is a number of instants; the clock's reading and `uuid4().hex` are
-- arguments.
use eag.Prelude.{
  ok-injective, sym, ap, ◌≡◌, ℕ, Bool, true, false, Option, none, some, String, Result, ok, err,
}
use eag.Prelude.{leb, ◌==◌, if◌then◌else◌}

pub data ApprovalStatus : Type 0 where
  pending approved reserved rejected consumed expired : ApprovalStatus

pub data CommandClassification : Type 0 where
  read_only validation build mutating privileged destructive unknown : CommandClassification

pub data PolicyOutcome : Type 0 where
  allow require_approval deny : PolicyOutcome

-- The exceptions of errors.py, with what their messages name, the three `ValueError`s, and the
-- exception of a handler of the event bus, with its text.
pub data ApprovalError : Type 0 where
  not_found already_exists expired_request command_mismatch not_due : String → ApprovalError
  invalid_transition : (action : String) (found expected : ApprovalStatus) → ApprovalError
  cannot_expire : ApprovalStatus → ApprovalError
  handler : String → ApprovalError
  expiry_not_later wrong_outcome id_mismatch : ApprovalError

pub record ApprovalRequest (Command : Type 0) : Type 0 where
  pub id : String
  pub command : Command
  pub classification : CommandClassification
  pub policy_outcome : PolicyOutcome
  pub policy_reason : String
  pub matched_rule : String
  pub status : ApprovalStatus
  pub created_at : ℕ
  pub expires_at : Option ℕ
  pub decided_at : Option ℕ
  pub consumed_at : Option ℕ
  pub decision_reason : Option String

-- The classes of events.py, each with its request.
pub data ApprovalEvent (Command : Type 0) : Type 0 where
  approval_requested approval_approved approval_rejected approval_expired approval_consumed
        approval_reserved approval_released :
      ApprovalRequest Command → ApprovalEvent Command

abbrev status_index : ApprovalStatus → ℕ
status_index pending = 0
status_index approved = 1
status_index reserved = 2
status_index rejected = 3
status_index consumed = 4
status_index expired = 5

-- `is`
unfoldable pub same_status : ApprovalStatus → ApprovalStatus → Bool
same_status s t = status_index s == status_index t

abbrev pub is_terminal : ApprovalStatus → Bool
is_terminal rejected = true
is_terminal consumed = true
is_terminal expired = true
is_terminal _ = false

-- `status in {PENDING, APPROVED}`
abbrev pub is_active : ApprovalStatus → Bool
is_active pending = true
is_active approved = true
is_active _ = false

-- `expires_at is not None and now >= expires_at`
unfoldable pub is_due : Option ℕ → ℕ → Bool
is_due none now = false
is_due (some t) now = leb t now

abbrev pub is_expired : {Command : Type 0} → ApprovalRequest Command → ℕ → Bool
is_expired request now = is_due request.expires_at now

abbrev requires_approval : PolicyOutcome → Bool
requires_approval require_approval = true
requires_approval _ = false

-- What the caller of `create` gives, with the identifier and the time that the code takes from the
-- system.
pub record Draft (Command : Type 0) : Type 0 where
  pub command : Command
  pub classification : CommandClassification
  pub policy_outcome : PolicyOutcome
  pub policy_reason : String
  pub matched_rule : String
  pub expires_at : Option ℕ
  pub now : ℕ
  pub uuid : String

unfoldable pub new_approval_request :
    {Command : Type 0} → Draft Command → Result ApprovalError (ApprovalRequest Command)
unfolding is_due
new_approval_request draft =
    if is_due draft.expires_at draft.now
    then err expiry_not_later
    else if requires_approval draft.policy_outcome
    then ok (record {
      id = draft.uuid;
      command = draft.command;
      classification = draft.classification;
      policy_outcome = draft.policy_outcome;
      policy_reason = draft.policy_reason;
      matched_rule = draft.matched_rule;
      status = pending;
      created_at = draft.now;
      expires_at = draft.expires_at;
      decided_at = none;
      consumed_at = none;
      decision_reason = none;
    })
    else err wrong_outcome

branch :
    {Command : Type 0} (early asked : Bool) (d e : ApprovalError) (q r : ApprovalRequest Command)
    → (if early then err d else if asked then ok q else err e) ≡ ok r
    → q ≡ r
branch true asked d e q r h = cc
branch false true d e q r h = ok-injective h
branch false false d e q r h = cc

pub new_approval_request-status :
    {Command : Type 0} (draft : Draft Command) (r : ApprovalRequest Command)
    → new_approval_request draft ≡ ok r
    → r.status ≡ pending
unfolding new_approval_request
new_approval_request-status draft r h = sym (
    ap (λ q. q.status)
      (branch (is_due draft.expires_at draft.now) (requires_approval draft.policy_outcome)
        expiry_not_later wrong_outcome _ r h))
