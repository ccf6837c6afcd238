-- ===== src/Approval/Coordinator.antt =====
-- src/eag/approval/coordinator.py, over `PolicyDecision` of
-- src/eag/execution/classification/models.py.
use eag.Prelude.{ℕ, Option, none, some, String}
use eag.Approval.Models.{CommandClassification, PolicyOutcome, require_approval, ApprovalRequest}
use eag.Approval.Store.{ApprovalStore}
use eag.Approval.Manager.{Call, ◌>>=◌, return, create}

pub record PolicyDecision (Command : Type 0) : Type 0 where
  pub request : Command
  pub classification : CommandClassification
  pub outcome : PolicyOutcome
  pub reason : String
  pub matched_rule : String

-- `ApprovalCoordinationResult`
pub record Coordination (Command : Type 0) : Type 0 where
  pub decision : PolicyDecision Command
  pub approval : Option (ApprovalRequest Command)

module _ {Command : Type 0} {S : ApprovalStore Command} where
  -- By the outcome; the clock's reading and the identifier are those that `create` takes.
  abbrev coordinate_by :
      PolicyOutcome → PolicyDecision Command → ℕ → String → Call S (Coordination Command)
  coordinate_by require_approval decision now uuid = do
    approval ← create (record {
      command = decision.request;
      classification = decision.classification;
      policy_outcome = decision.outcome;
      policy_reason = decision.reason;
      matched_rule = decision.matched_rule;
      expires_at = none;
      now = now;
      uuid = uuid;
    })
    return (record { decision = decision; approval = some approval })
  coordinate_by _ decision now uuid = return (record { decision = decision; approval = none })

  unfoldable pub coordinate : PolicyDecision Command → ℕ → String → Call S (Coordination Command)
  coordinate decision now uuid = coordinate_by decision.outcome decision now uuid
