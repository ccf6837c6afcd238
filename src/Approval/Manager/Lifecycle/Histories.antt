-- ===== src/Approval/Manager/Lifecycle/Histories.antt =====
-- Histories of calls of src/eag/approval/manager.py over any lawful store.
use eag.Prelude.{
  ◌≡◌, refl, sym, ap, ◌∙◌, ◌+◌, ◌≤◌, Bool, true, false, List, [], ◌∷◌, String, ok, err, inl, inr,
  arith,
}
use eag.Approval.Models.{ApprovalRequest, ApprovalError, is_terminal}
use eag.Approval.Store.{ApprovalStore, IsLawful}
use eag.Approval.Manager.{Manager}
use eag.Approval.Manager.Lifecycle.{
  is_ok, is_through, Action, creating, operating, is_consuming, is_approving, perform, perform_all,
  successes,
}
use eag.Approval.Manager.Lifecycle.Steps.{IsNext}
use eag.Approval.Manager.Lifecycle.Effects.{
  IsEffect, creating-IsEffect, operating-IsEffect, chances_of, credit_of,
}

module _ {Command : Type 0} where
  -- Versions of a request, each next after the one before.
  pub data IsPath : ApprovalRequest Command → ApprovalRequest Command → Type 0 where
    here : {r : ApprovalRequest Command} → IsPath r r
    there : {r p q : ApprovalRequest Command} → IsNext r p → IsPath p q → IsPath r q

  path-IsTerminal :
      (r q : ApprovalRequest Command) → is_terminal r.status ≡ true → IsPath r q → q ≡ r
  path-IsTerminal r q h here = refl
  path-IsTerminal r q h (there {p = p} next path) = elim next.final [
    | inl active ↦ let clash : true ≡ false = sym h ∙ active in cc
    | inr e ↦ path-IsTerminal p q (rw e h) path ∙ e
  ]

module _ {Command : Type 0} {S : ApprovalStore Command} {Valid : S.State → Type 0}
    (law : IsLawful S Valid) (same : Command → Command → Bool) where
  perform-IsEffect :
      (k : String) (a : Action Command) (m : Manager S) → Valid m.store → IsEffect law same k a m
  perform-IsEffect k (creating d) m v = creating-IsEffect law same k d m v
  perform-IsEffect k (operating op) m v = operating-IsEffect law same k op m v

  -- On a lawful store in a valid state that holds a request, whatever calls follow, a request stays
  -- stored under its identifier, its versions follow the arrows of the lifecycle with the command,
  -- the classification, the outcome and the times of its creation and expiry unchanged, a terminal
  -- version never changes, and the store stays valid.
  pub perform_all-IsPath :
      (k : String) (l : List (Action Command)) (m : Manager S) (r : ApprovalRequest Command)
      → Valid m.store
      → S.get m.store k ≡ ok r
      → Valid (perform_all same l m).store
        × (q : ApprovalRequest Command) × (S.get (perform_all same l m).store k ≡ ok q)
        × IsPath r q
  perform_all-IsPath k [] m r v h = (v, r, h, here)
  perform_all-IsPath k (a ∷ l) m r v h =
      let effect = perform-IsEffect k a m v in
      let (p, held, next) = effect.kept r h in
      let (valid, q, stored, path) =
        perform_all-IsPath k l (perform same a m).0 p effect.valid held in
      (valid, q, stored, there next path)

  -- A request that is rejected, consumed or expired is stored as it is for ever.
  pub perform_all-IsTerminal :
      (k : String) (l : List (Action Command)) (m : Manager S) (r : ApprovalRequest Command)
      → Valid m.store
      → S.get m.store k ≡ ok r
      → is_terminal r.status ≡ true
      → S.get (perform_all same l m).store k ≡ ok r
  perform_all-IsTerminal k l m r v h t =
      let (valid, q, stored, path) = perform_all-IsPath k l m r v h in
      stored ∙ ap ok (path-IsTerminal r q t path)

  consumed-le :
      (k : String) (l : List (Action Command)) (m : Manager S)
      → Valid m.store
      → (successes same is_consuming is_ok k l m ≤ chances_of (S.get m.store k))
        × (successes same is_consuming is_ok k l m
            ≤ successes same is_approving is_through k l m + credit_of (S.get m.store k))
  consumed-le k [] m v = (omega arith, omega arith)
  consumed-le k (a ∷ l) m v =
      let effect = perform-IsEffect k a m v in
      let (few, paid) = consumed-le k l (perform same a m).0 effect.valid in
      (ground (arith, few, effect.consumable), ground (arith, paid, effect.approved_before))

  -- On a lawful store in a valid state that does not have an identifier, whatever calls are made and
  -- whatever the handlers of the event bus do, at most one consumption under it succeeds, and no
  -- more than the approvals under it that succeed or raise only the exception of a handler.
  pub consumed_once :
      (k : String) (l : List (Action Command)) (m : Manager S) (e : ApprovalError)
      → Valid m.store
      → S.get m.store k ≡ err e
      → (successes same is_consuming is_ok k l m ≤ 1)
        × (successes same is_consuming is_ok k l m ≤ successes same is_approving is_through k l m)
  consumed_once k l m e v h =
      let (few, paid) = consumed-le k l m v in
      let chances : chances_of (S.get m.store k) ≡ 1 = rw h refl in
      let credit : credit_of (S.get m.store k) ≡ 0 = rw h refl in
      (omega (arith, few, chances), omega (arith, paid, credit))
