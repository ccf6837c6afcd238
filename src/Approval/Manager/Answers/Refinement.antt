-- ===== src/Approval/Manager/Answers/Refinement.antt =====
-- The calls of src/eag/approval/manager.py on a stored request against their table.
use eag.Prelude.{◌≡◌, Bool, ok}
use eag.Approval.Models.{ApprovalRequest}
use eag.Approval.Store.{ApprovalStore, IsLawful}
use eag.Approval.Manager.{Manager}
use eag.Approval.Manager.Answers.{
  Operation, target, answer, run, IsAnswered, approving, rejecting, reserving, releasing, consuming,
  expiring,
}
use eag.Approval.Manager.Answers.Decisions.{approve-by_status, reject-by_status, expire-by_status}
use eag.Approval.Manager.Answers.Reservations.{
  reserve-by_status, release-by_status, consume-by_status,
}

module _ {Command : Type 0} {S : ApprovalStore Command} {Valid : S.State → Type 0}
    (law : IsLawful S Valid) where
  -- On a lawful store in a valid state that holds the request, each call of the manager answers for
  -- it as the table of statuses says, its exceptions included: what is stored, the event that is
  -- published, and the result, or the exception of a handler of the event in its place; it changes
  -- nothing that is stored under another identifier, and the store stays valid.
  pub run-found :
      (same : Command → Command → Bool) (op : Operation Command) (m : Manager S)
      → (r : ApprovalRequest Command) → Valid m.store
      → S.get m.store (target op) ≡ ok r
      → IsAnswered Valid m (target op) (answer same op r) (run same op m)
  run-found same (approving k reason now) m r v h =
      approve-by_status law m k reason now r r.status v h same
  run-found same (rejecting k reason now) m r v h =
      reject-by_status law m k reason now r r.status v h same
  run-found same (reserving k command now) m r v h =
      reserve-by_status law m k command now r r.status v h same
  run-found same (consuming k command now) m r v h =
      consume-by_status law m k command now r r.status v h same
  run-found same (releasing k) m r v h = release-by_status law m k r r.status v h same
  run-found same (expiring k now) m r v h = expire-by_status law m k now r r.status v h same
