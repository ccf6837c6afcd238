-- ===== src/Approval/Manager/Lifecycle/Steps.antt =====
-- One call of src/eag/approval/manager.py: where it takes a request in the lifecycle.
use eag.Prelude.{
  String, Option, ◌≡◌, refl, ℕ, ◌+◌, ◌≤◌, Bool, true, false, ◌&&◌, ◌||◌, ◌⊎◌, if◌then◌else◌, inl,
  inr, arith,
}
use eag.Approval.Models.{
  ApprovalStatus, pending, approved, reserved, ApprovalRequest, CommandClassification,
  PolicyOutcome, is_terminal, same_status,
}
use eag.Approval.Manager.Answers.{
  Operation, approving, rejecting, reserving, consuming, releasing, expiring, answer,
}
use eag.Approval.Manager.Lifecycle.{leads_to, is_ok, is_consuming, is_approving}

-- How often a request may still be consumed, and how many approvals it has not used up.
abbrev pub chances : ApprovalStatus → ℕ
chances pending = 1
chances approved = 1
chances reserved = 1
chances _ = 0

abbrev pub credit : ApprovalStatus → ℕ
credit approved = 1
credit reserved = 1
credit _ = 0

abbrev pub bit : Bool → ℕ
bit b = if b then 1 else 0

module _ {Command : Type 0} where
  -- What the human was asked about.
  abbrev pub asked :
      ApprovalRequest Command
      → String × Command × CommandClassification × PolicyOutcome × ℕ × Option ℕ
  asked r = (r.id, r.command, r.classification, r.policy_outcome, r.created_at, r.expires_at)

  -- A version of a request that the lifecycle allows next: one arrow at most, what the human
  -- was asked about as it was, and nothing at all of a terminal request.
  pub record IsNext (r q : ApprovalRequest Command) : Type 0 where
    pub arrow : (same_status r.status q.status || leads_to r.status q.status) ≡ true
    pub unchanged : asked q ≡ asked r
    pub final : (is_terminal r.status ≡ false) ⊎ (q ≡ r)

  pub stay : (r : ApprovalRequest Command) → IsNext r r
  unfolding same_status
  stay r = record { arrow = ground arith; unchanged = refl; final = inr refl }

  abbrev IsPaid : (Command → Command → Bool) → Operation Command → ApprovalRequest Command → Type 0
  IsPaid same op r =
      (bit (is_consuming op && is_ok (answer same op r).result)
          + chances (answer same op r).stored.status
        ≤ chances r.status)
      × (bit (is_consuming op && is_ok (answer same op r).result)
            + credit (answer same op r).stored.status
          ≤ bit (is_approving op && is_ok (answer same op r).result) + credit r.status)

  IsPaid-by_status :
      (same : Command → Command → Bool) (op : Operation Command) (r : ApprovalRequest Command)
      → (s : ApprovalStatus) → IsPaid same op (record r { status = s })
  unfolding answer
  IsPaid-by_status same (approving id reason now) r pending = (ground arith, ground arith)
  IsPaid-by_status same (approving id reason now) r s = (ground arith, ground arith)
  IsPaid-by_status same (consuming id command now) r pending = (ground arith, ground arith)
  IsPaid-by_status same (consuming id command now) r s = (ground arith, ground arith)
  IsPaid-by_status same (rejecting id reason now) r pending = (ground arith, ground arith)
  IsPaid-by_status same (rejecting id reason now) r s = (ground arith, ground arith)
  IsPaid-by_status same (reserving id command now) r pending = (ground arith, ground arith)
  IsPaid-by_status same (reserving id command now) r s = (ground arith, ground arith)
  IsPaid-by_status same (releasing id) r pending = (ground arith, ground arith)
  IsPaid-by_status same (releasing id) r s = (ground arith, ground arith)
  IsPaid-by_status same (expiring id now) r pending = (ground arith, ground arith)
  IsPaid-by_status same (expiring id now) r s = (ground arith, ground arith)

  final-by_status :
      (same : Command → Command → Bool) (op : Operation Command) (r : ApprovalRequest Command)
      → (s : ApprovalStatus)
      → (is_terminal s ≡ false)
        ⊎ ((answer same op (record r { status = s })).stored ≡ record r { status = s })
  unfolding answer
  final-by_status same op r pending = inl refl
  final-by_status same op r approved = inl refl
  final-by_status same op r reserved = inl refl
  final-by_status same (approving id reason now) r s = inr refl
  final-by_status same (consuming id command now) r s = inr refl
  final-by_status same (rejecting id reason now) r s = inr refl
  final-by_status same (reserving id command now) r s = inr (ground arith)
  final-by_status same (releasing id) r s = inr refl
  final-by_status same (expiring id now) r s = inr refl

  step-by_status :
      (same : Command → Command → Bool) (op : Operation Command) (r : ApprovalRequest Command)
      → (s : ApprovalStatus)
      → IsNext (record r { status = s }) (answer same op (record r { status = s })).stored
  unfolding answer same_status
  step-by_status same (approving id reason now) r pending = record {
    arrow = ground arith;
    unchanged = ground arith;
    final = final-by_status same (approving id reason now) r pending;
  }
  step-by_status same (approving id reason now) r s = record {
    arrow = ground arith;
    unchanged = ground arith;
    final = final-by_status same (approving id reason now) r s;
  }
  step-by_status same (consuming id command now) r pending = record {
    arrow = ground arith;
    unchanged = ground arith;
    final = final-by_status same (consuming id command now) r pending;
  }
  step-by_status same (consuming id command now) r s = record {
    arrow = ground arith;
    unchanged = ground arith;
    final = final-by_status same (consuming id command now) r s;
  }
  step-by_status same (rejecting id reason now) r pending = record {
    arrow = ground arith;
    unchanged = ground arith;
    final = final-by_status same (rejecting id reason now) r pending;
  }
  step-by_status same (rejecting id reason now) r s = record {
    arrow = ground arith;
    unchanged = ground arith;
    final = final-by_status same (rejecting id reason now) r s;
  }
  step-by_status same (reserving id command now) r pending = record {
    arrow = ground arith;
    unchanged = ground arith;
    final = final-by_status same (reserving id command now) r pending;
  }
  step-by_status same (reserving id command now) r s = record {
    arrow = ground arith;
    unchanged = ground arith;
    final = final-by_status same (reserving id command now) r s;
  }
  step-by_status same (releasing id) r pending = record {
    arrow = ground arith;
    unchanged = ground arith;
    final = final-by_status same (releasing id) r pending;
  }
  step-by_status same (releasing id) r s = record {
    arrow = ground arith;
    unchanged = ground arith;
    final = final-by_status same (releasing id) r s;
  }
  step-by_status same (expiring id now) r pending = record {
    arrow = ground arith;
    unchanged = ground arith;
    final = final-by_status same (expiring id now) r pending;
  }
  step-by_status same (expiring id now) r s = record {
    arrow = ground arith;
    unchanged = ground arith;
    final = final-by_status same (expiring id now) r s;
  }

  pub paid :
      (same : Command → Command → Bool) (op : Operation Command) (r : ApprovalRequest Command)
      → IsPaid same op r
  paid same op r = IsPaid-by_status same op r r.status

  pub step :
      (same : Command → Command → Bool) (op : Operation Command) (r : ApprovalRequest Command)
      → IsNext r (answer same op r).stored
  step same op r = step-by_status same op r r.status
