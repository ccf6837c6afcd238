-- ===== src/Approval/Store.antt =====
-- src/eag/approval/store.py: `ApprovalStore`, the methods that the manager calls, over a state of
-- the implementation's own, and what the manager relies on.
pub mod Memory
use text.Mathlib.Text.{◌==◌ as str_eq}
use eag.Prelude.{
  ◌≡◌, Bool, true, false, Option, none, some, List, String, Result, ok, err, if◌then◌else◌,
}
use eag.Approval.Models.{
  ApprovalStatus, ApprovalRequest, ApprovalError, same_status, not_found, already_exists,
}

pub record ApprovalStore (Command : Type 0) : Type 1 where
  pub State : Type 0
  pub add : State → ApprovalRequest Command → Result ApprovalError State
  pub get : State → String → Result ApprovalError (ApprovalRequest Command)
  pub save : State → ApprovalRequest Command → Result ApprovalError State
  pub list : State → Option ApprovalStatus → List (ApprovalRequest Command)
  pub transition :
      State
      → String
      → ApprovalStatus
      → ApprovalRequest Command
      → Result ApprovalError (State × Bool)

module _ {Command : Type 0} (S : ApprovalStore Command) where
  -- The second state holds a request under its identifier, and otherwise what the first holds.
  pub record IsUpdate (Valid : S.State → Type 0) (s : S.State) (request : ApprovalRequest Command)
      (t : S.State) : Type 0 where
    pub valid : Valid t
    pub held : (k : String) → S.get t k ≡ (if str_eq k request.id then ok request else S.get s k)

  -- The contract, for the states that a predicate admits.
  pub record IsLawful (Valid : S.State → Type 0) : Type 0 where
    pub get-id :
        (s : S.State) (k : String) (r : ApprovalRequest Command)
        → Valid s
        → S.get s k ≡ ok r
        → r.id ≡ k
    pub get-missing :
        (s : S.State) (k : String) (e : ApprovalError) → S.get s k ≡ err e → e ≡ not_found k
    pub add-present :
        (s : S.State) (r old : ApprovalRequest Command)
        → S.get s r.id ≡ ok old
        → S.add s r ≡ err (already_exists r.id)
    pub add-missing :
        (s : S.State) (r : ApprovalRequest Command) (e : ApprovalError)
        → Valid s
        → S.get s r.id ≡ err e
        → (t : S.State) × (S.add s r ≡ ok t) × IsUpdate Valid s r t
    pub save-present :
        (s : S.State) (r old : ApprovalRequest Command)
        → Valid s
        → S.get s r.id ≡ ok old
        → (t : S.State) × (S.save s r ≡ ok t) × IsUpdate Valid s r t
    pub transition-applied :
        (s : S.State) (expected : ApprovalStatus) (r old : ApprovalRequest Command)
        → Valid s
        → S.get s r.id ≡ ok old
        → same_status old.status expected ≡ true
        → (t : S.State) × (S.transition s r.id expected r ≡ ok (t, true)) × IsUpdate Valid s r t
    pub transition-refused :
        (s : S.State) (expected : ApprovalStatus) (r old : ApprovalRequest Command)
        → S.get s r.id ≡ ok old
        → same_status old.status expected ≡ false
        → S.transition s r.id expected r ≡ ok (s, false)
