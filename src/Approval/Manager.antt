-- ===== src/Approval/Manager.antt =====
-- src/eag/approval/manager.py. A call takes the manager and returns it with the answer, since the
-- code changes the store before some of its exceptions. The event bus, where there is one, is the
-- list of what was published, the latest first; its handlers answer over such a list with the text
-- of the exception that they raise over the latest event, if they do. They do not call the manager.
pub mod Answers
pub mod Lifecycle
use eag.Prelude.{
  ℕ, Bool, true, false, not, ◌&&◌, Option, none, some, List, [], ◌∷◌, String, Result, ok, err,
  if◌then◌else◌,
}
use eag.Approval.Models.{
  ApprovalStatus, pending, approved, reserved, rejected, consumed, expired, ApprovalRequest,
  ApprovalError, expired_request, command_mismatch, not_due, invalid_transition, cannot_expire,
  handler, ApprovalEvent, approval_requested, approval_approved, approval_rejected,
  approval_expired, approval_consumed, approval_reserved, approval_released, same_status, is_active,
  is_expired, Draft, new_approval_request,
}
use eag.Approval.Store.{ApprovalStore}

module _ {Command : Type 0} (S : ApprovalStore Command) where
  pub record Manager : Type 0 where
    pub store : S.State
    pub event_bus : Option (List (ApprovalEvent Command))
    pub handlers : List (ApprovalEvent Command) → Option String

  abbrev pub Call : Type 0 → Type 0
  Call A = Manager → Manager × Result ApprovalError A

abbrev pub published :
    {Command : Type 0}
    → ApprovalEvent Command
    → Option (List (ApprovalEvent Command))
    → Option (List (ApprovalEvent Command))
published event none = none
published event (some events) = some (event ∷ events)

-- What the handlers raise over the latest event; without a bus there is nobody to raise.
abbrev pub heard :
    {Command : Type 0}
    → Option (List (ApprovalEvent Command))
    → (List (ApprovalEvent Command) → Option String)
    → Option String
heard none handlers = none
heard (some events) handlers = handlers events

-- An exception of a handler takes the place of the answer.
abbrev pub told : {A : Type 0} → Option String → Result ApprovalError A → Result ApprovalError A
told none answer = answer
told (some text) answer = err (handler text)

module _ {Command : Type 0} {S : ApprovalStore Command} where
  abbrev pub return : {A : Type 0} → A → Call S A
  return a = λ m. (m, ok a)

  abbrev pub raise : {A : Type 0} → ApprovalError → Call S A
  raise e = λ m. (m, err e)

  -- What follows an answer.
  abbrev after :
      {A B : Type 0}
      → (A → Call S B)
      → Manager S × Result ApprovalError A
      → Manager S × Result ApprovalError B
  after next (m, ok a) = next a m
  after next (m, err e) = (m, err e)

  infixl 5 ◌>>=◌ ◌>>◌
  abbrev pub ◌>>=◌ : {A B : Type 0} → Call S A → (A → Call S B) → Call S B
  call >>= next = λ m. after next (call m)

  abbrev pub ◌>>◌ : {B : Type 0} → Call S (Unit {0}) → Call S B → Call S B
  call >> next = call >>= λ done. next

  abbrev stored :
      Manager S → Result ApprovalError S.State → Manager S × Result ApprovalError (Unit {0})
  stored m (ok s) = (record m { store = s }, ok tt)
  stored m (err e) = (m, err e)

  abbrev store_add : ApprovalRequest Command → Call S (Unit {0})
  store_add r = λ m. stored m (S.add m.store r)

  abbrev store_get : String → Call S (ApprovalRequest Command)
  store_get k = λ m. (m, S.get m.store k)

  abbrev store_save : ApprovalRequest Command → Call S (Unit {0})
  store_save r = λ m. stored m (S.save m.store r)

  abbrev moved :
      Manager S → Result ApprovalError (S.State × Bool) → Manager S × Result ApprovalError Bool
  moved m (ok (s, done)) = (record m { store = s }, ok done)
  moved m (err e) = (m, err e)

  abbrev store_transition : String → ApprovalStatus → ApprovalRequest Command → Call S Bool
  store_transition k expected r = λ m. moved m (S.transition m.store k expected r)

  -- `self._publish(event)` and then `return request`.
  abbrev publish_and_return :
      ApprovalEvent Command → ApprovalRequest Command → Call S (ApprovalRequest Command)
  publish_and_return event request = λ m. (
    record m { event_bus = published event m.event_bus },
    told (heard (published event m.event_bus) m.handlers) (ok request),
  )

  abbrev require_status : ApprovalRequest Command → ApprovalStatus → String → Call S (Unit {0})
  require_status request expected action =
      if same_status request.status expected
      then return tt
      else raise (invalid_transition action request.status expected)

  unfoldable pub expire_if_needed : ApprovalRequest Command → ℕ → Call S (ApprovalRequest Command)
  expire_if_needed request now =
      let expiry = record request { status = expired } in
      if is_active request.status && is_expired request now
      then (do store_save expiry; publish_and_return (approval_expired expiry) expiry)
      else return request

  unfoldable pub create : Draft Command → Call S (ApprovalRequest Command)
  create draft = elim (new_approval_request draft) [
    | err e ↦ raise e
    | ok request ↦ do store_add request; publish_and_return (approval_requested request) request
  ]

  unfoldable pub get : String → Call S (ApprovalRequest Command)
  get approval_id = store_get approval_id

  unfoldable pub list : Option ApprovalStatus → Manager S → List (ApprovalRequest Command)
  list status m = S.list m.store status

  unfoldable pub approve : String → Option String → ℕ → Call S (ApprovalRequest Command)
  unfolding expire_if_needed
  approve approval_id reason now = do
    found ← store_get approval_id
    request ← expire_if_needed found now
    if same_status request.status expired then raise (expired_request approval_id) else return tt
    require_status request pending "approve"
    let approval = record request {
      status = approved;
      decided_at = some now;
      decision_reason = reason;
    } in
        (do store_save approval; publish_and_return (approval_approved approval) approval)

  unfoldable pub reject : String → Option String → ℕ → Call S (ApprovalRequest Command)
  unfolding expire_if_needed
  reject approval_id reason now = do
    found ← store_get approval_id
    request ← expire_if_needed found now
    if same_status request.status expired then raise (expired_request approval_id) else return tt
    require_status request pending "reject"
    let rejection = record request {
      status = rejected;
      decided_at = some now;
      decision_reason = reason;
    } in
        (do store_save rejection; publish_and_return (approval_rejected rejection) rejection)

  -- `current = self._store.get(approval_id)` and the exception over its status.
  abbrev raise_invalid : String → String → ApprovalStatus → Call S (Unit {0})
  raise_invalid action approval_id expected = do
    current ← store_get approval_id
    raise (invalid_transition action current.status expected)

  -- `same` is the equality of commands.
  unfoldable pub reserve :
      (Command → Command → Bool) → String → Command → ℕ → Call S (ApprovalRequest Command)
  unfolding expire_if_needed
  reserve same approval_id command now = do
    found ← store_get approval_id
    request ← expire_if_needed found now
    if same_status request.status expired then raise (expired_request approval_id) else return tt
    if same request.command command then return tt else raise (command_mismatch approval_id)
    let reservation = record request { status = reserved } in
        (do
          transitioned ← store_transition approval_id approved reservation
          if transitioned then return tt else raise_invalid "reserve" approval_id approved
          publish_and_return (approval_reserved reservation) reservation)

  unfoldable pub release : String → Call S (ApprovalRequest Command)
  release approval_id = do
    request ← store_get approval_id
    let freed = record request { status = approved } in
        (do
          transitioned ← store_transition approval_id reserved freed
          if transitioned then return tt else raise_invalid "release" approval_id reserved
          publish_and_return (approval_released freed) freed)

  unfoldable pub consume :
      (Command → Command → Bool) → String → Command → ℕ → Call S (ApprovalRequest Command)
  unfolding expire_if_needed release
  consume same approval_id command now = do
    found ← store_get approval_id
    request ← expire_if_needed found now
    if same_status request.status expired then raise (expired_request approval_id) else return tt
    require_status request reserved "consume"
    if same request.command command
        then return tt
        else (do freed ← release approval_id; raise (command_mismatch approval_id))
    let consumption = record request { status = consumed; consumed_at = some now } in
        (do
          transitioned ← store_transition approval_id reserved consumption
          if transitioned then return tt else raise_invalid "consume" approval_id reserved
          publish_and_return (approval_consumed consumption) consumption)

  unfoldable pub expire : String → ℕ → Call S (ApprovalRequest Command)
  expire approval_id now = do
    request ← store_get approval_id
    if is_active request.status then return tt else raise (cannot_expire request.status)
    if is_expired request now then return tt else raise (not_due approval_id)
    let expiry = record request { status = expired } in
        (do store_save expiry; publish_and_return (approval_expired expiry) expiry)
