-- ===== src/Approval/Manager/Lifecycle/Effects.antt =====
-- What one call of src/eag/approval/manager.py does to the request under an identifier.
use text.Mathlib.Text.{◌==◌ as str_eq}
use text.Mathlib.TextEquality.{eq_iff}
use eag.Prelude.{
  Result-cases, Option, none, some, false, not, ◌&&◌, ◌≡◌, refl, sym, ap, ◌∙◌, ℕ, ◌+◌, ◌≤◌, Bool,
  ◌⊎◌, String, Result, ok, err, inl, inr, Bool-cases, arith, ok-injective,
}
use eag.Approval.Models.{
  pending, ApprovalRequest, ApprovalError, Draft, not_found, new_approval_request,
  new_approval_request-status,
}
use eag.Approval.Store.{ApprovalStore, IsLawful, IsUpdate}
use eag.Approval.Manager.{Manager, told, create, approve, reject, reserve, release, consume, expire}
use eag.Approval.Manager.Answers.{
  Operation, approving, rejecting, reserving, consuming, releasing, expiring, target, answer, run,
  raised_by,
}
use eag.Approval.Manager.Answers.Refinement.{run-found}
use eag.Approval.Manager.Lifecycle.{
  Action, creating, operating, is_ok, is_through, is_consuming, is_approving, succeeds, perform,
}
use eag.Approval.Manager.Lifecycle.Steps.{chances, credit, bit, IsNext, stay, paid, step}

told-ok :
    {A : Type 0} (x : Option String) (a : Result ApprovalError A)
    → (is_ok (told x a) && not (is_ok a)) ≡ false
told-ok none (ok a) = refl
told-ok none (err e) = refl
told-ok (some text) a = refl

told-through :
    {A : Type 0} (x : Option String) (a : Result ApprovalError A)
    → (is_ok a && not (is_through (told x a))) ≡ false
told-through none (ok a) = refl
told-through none (err e) = refl
told-through (some text) (ok a) = refl
told-through (some text) (err e) = refl

-- The two measures of what a store answers for an identifier.
abbrev pub chances_of : {Command : Type 0} → Result ApprovalError (ApprovalRequest Command) → ℕ
chances_of (err e) = 1
chances_of (ok r) = chances r.status

abbrev pub credit_of : {Command : Type 0} → Result ApprovalError (ApprovalRequest Command) → ℕ
credit_of (err e) = 0
credit_of (ok r) = credit r.status

module _ {Command : Type 0} {S : ApprovalStore Command} {Valid : S.State → Type 0}
    (law : IsLawful S Valid) (same : Command → Command → Bool) where
  -- A call on an identifier that the store does not have raises, and changes nothing.
  pub run-missing :
      (op : Operation Command) (m : Manager S) (e : ApprovalError)
      → S.get m.store (target op) ≡ err e
      → run same op m ≡ (m, err (not_found (target op)))
  unfolding run approve reject reserve release consume expire
  run-missing (approving id reason now) m e h = rw (h, law.get-missing m.store id e h) refl
  run-missing (rejecting id reason now) m e h = rw (h, law.get-missing m.store id e h) refl
  run-missing (reserving id command now) m e h = rw (h, law.get-missing m.store id e h) refl
  run-missing (consuming id command now) m e h = rw (h, law.get-missing m.store id e h) refl
  run-missing (releasing id) m e h = rw (h, law.get-missing m.store id e h) refl
  run-missing (expiring id now) m e h = rw (h, law.get-missing m.store id e h) refl

  -- A creation leaves the store as it is, or adds a pending request under a new identifier.
  IsCreated : Manager S → Manager S → Type 0
  IsCreated m n =
      (n.store ≡ m.store)
      ⊎ ((r : ApprovalRequest Command) × (e : ApprovalError) × (S.get m.store r.id ≡ err e)
          × (r.status ≡ pending)
          × IsUpdate S Valid m.store r n.store)

  create_lem : (d : Draft Command) (m : Manager S) → Valid m.store → IsCreated m (create d m).0
  unfolding create IsCreated
  create_lem d m v = elim (Result-cases (new_approval_request d)) [
    | inl (e, h) ↦ rw (h, create) (inl refl)
    | inr (r, h) ↦ elim (Result-cases (S.get m.store r.id)) [
      | inl (e, missing) ↦
          let (t, added, u) = law.add-missing m.store r e v missing in
          rw (h, create, added) (inr (r, e, missing, new_approval_request-status d r h, u))
      | inr (old, found) ↦ rw (h, create, law.add-present m.store r old found) (inl refl)
    ]
  ]

  -- What one call does to what the store answers for an identifier.
  pub record IsEffect (k : String) (a : Action Command) (m : Manager S) : Type 0 where
    pub valid : Valid (perform same a m).0.store
    pub kept :
        (r : ApprovalRequest Command)
        → S.get m.store k ≡ ok r
        → (q : ApprovalRequest Command) × (S.get (perform same a m).0.store k ≡ ok q) × IsNext r q
    pub consumable :
        bit (succeeds is_consuming is_ok k a (perform same a m).1)
          + chances_of (S.get (perform same a m).0.store k)
        ≤ chances_of (S.get m.store k)
    pub approved_before :
        bit (succeeds is_consuming is_ok k a (perform same a m).1)
          + credit_of (S.get (perform same a m).0.store k)
        ≤ bit (succeeds is_approving is_through k a (perform same a m).1)
          + credit_of (S.get m.store k)

  pub creating-IsEffect :
      (k : String) (d : Draft Command) (m : Manager S) → Valid m.store → IsEffect k (creating d) m
  unfolding perform succeeds IsCreated
  creating-IsEffect k d m v = elim (create_lem d m v) [
    | inl same_store ↦ record {
      valid = rw (perform, same_store) v;
      kept = λ r h. (r, rw (perform, same_store) h, stay r);
      consumable = rw (perform, same_store) (ground arith);
      approved_before = rw (perform, same_store) (ground arith);
    }
    | inr (r, e, missing, fresh, u) ↦ elim (Bool-cases (str_eq k r.id)) [
      | inl here ↦
          let absent : S.get m.store k ≡ err e =
            ap (S.get m.store) ((eq_iff k r.id).0 here) ∙ missing in
          record {
            valid = u.valid;
            kept = λ q h.
                let clash : Path (Result ApprovalError (ApprovalRequest Command)) (err e) (ok q) =
                  sym absent ∙ h in
                cc;
            consumable = rw (u.held k, here, absent, fresh) (ground arith);
            approved_before = rw (u.held k, here, absent, fresh) (ground arith);
          }
      | inr other ↦ record {
        valid = u.valid;
        kept = λ q h. (q, u.held k ∙ rw other h, stay q);
        consumable = rw (u.held k, other) (ground arith);
        approved_before = rw (u.held k, other) (ground arith);
      }
    ]
  ]

  pub operating-IsEffect :
      (k : String) (op : Operation Command) (m : Manager S)
      → Valid m.store
      → IsEffect k (operating op) m
  unfolding perform succeeds
  operating-IsEffect k op m v = elim (Result-cases (S.get m.store (target op))) [
    | inl (e, missing) ↦
        let out = run-missing op m e missing in
        record {
          valid = rw out v;
          kept = λ r h. (r, rw out h, stay r);
          consumable = rw out (ground arith);
          approved_before = rw out (ground arith);
        }
    | inr (r, found) ↦
        let done = run-found law same op m r v found in
        elim (Bool-cases (str_eq k (target op))) [
          | inl here ↦
              let present : S.get m.store k ≡ ok r =
                ap (S.get m.store) ((eq_iff k (target op)).0 here) ∙ found in
              record {
                valid = done.valid;
                kept = λ q h.
                    let same_request : r ≡ q = ok-injective (sym present ∙ h) in
                    (
                      (answer same op r).stored,
                      done.held k ∙ rw here refl,
                      rw (← same_request) (step same op r),
                    );
                consumable =
                    rw (done.held k, here, present, done.answered)
                      (ground (
                        arith,
                        (paid same op r).0,
                        told-ok (raised_by (answer same op r).event m) (answer same op r).result,
                      ));
                approved_before =
                    rw (done.held k, here, present, done.answered)
                      (ground (
                        arith,
                        (paid same op r).1,
                        told-ok (raised_by (answer same op r).event m) (answer same op r).result,
                        told-through (raised_by (answer same op r).event m)
                            (answer same op r).result,
                      ));
              }
          | inr other ↦ record {
            valid = done.valid;
            kept = λ q h. (q, done.held k ∙ rw other h, stay q);
            consumable = rw (done.held k, other) (ground arith);
            approved_before = rw (done.held k, other) (ground arith);
          }
        ]
  ]
