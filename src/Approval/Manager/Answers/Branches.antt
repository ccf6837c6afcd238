-- ===== src/Approval/Manager/Answers/Branches.antt =====
-- The ends that the calls of src/eag/approval/manager.py on a stored request have: nothing is
-- changed, a new version is saved, or a transition of the store goes through or is refused.
use text.Mathlib.Text.{◌==◌ as str_eq}
use text.Mathlib.TextEquality.{eq_iff}
use eag.Prelude.{
  Option, ◌≡◌, refl, sym, ap, ◌∙◌, true, false, some, String, ok, err, inl, inr, Bool-cases, arith,
}
use eag.Approval.Models.{
  ApprovalStatus, expired, ApprovalRequest, ApprovalError, expired_request, ApprovalEvent,
  approval_expired, same_status,
}
use eag.Approval.Store.{ApprovalStore, IsLawful, IsUpdate}
use eag.Approval.Manager.{Manager, published, heard, told}
use eag.Approval.Manager.Answers.{Answer, IsAnswered, refused, lapsed}

-- What the handlers raise over an expiry.
abbrev pub lapse_heard :
    {Command : Type 0} {S : ApprovalStore Command}
    → Manager S
    → ApprovalRequest Command
    → Option String
lapse_heard m r =
    heard (published (approval_expired (record r { status = expired })) m.event_bus) m.handlers

module _ {Command : Type 0} {S : ApprovalStore Command} {Valid : S.State → Type 0}
    (law : IsLawful S Valid) where
  -- A call that leaves the manager as it is.
  pub refused-IsAnswered :
      (m : Manager S) (k : String) (r : ApprovalRequest Command) (e : ApprovalError)
      → Valid m.store
      → S.get m.store k ≡ ok r
      → IsAnswered Valid m k (refused r e) (m, err e)
  refused-IsAnswered m k r e v h = record {
    valid = v;
    held = λ j. elim (Bool-cases (str_eq j k)) [
      | inl same ↦ rw ((eq_iff j k).0 same, h) (ground (arith, eq_iff k k))
      | inr other ↦ rw other refl
    ];
    announced_by = refl;
    heard_by = refl;
    answered = refl;
  }

  updated-IsAnswered :
      (m : Manager S) (t : S.State) (k : String) (a : Answer Command)
      (event : ApprovalEvent Command)
      → IsUpdate S Valid m.store a.stored t
      → a.stored.id ≡ k
      → a.event ≡ some event
      → IsAnswered Valid m k a (
        record m { store = t; event_bus = published event m.event_bus },
        told (heard (published event m.event_bus) m.handlers) a.result,
      )
  updated-IsAnswered m t k a event u e h = record {
    valid = u.valid;
    held = λ j. rw (← e) (u.held j);
    announced_by = rw h refl;
    heard_by = refl;
    answered = rw h refl;
  }

  get-new :
      (s : S.State) (k : String) (old new : ApprovalRequest Command)
      → Valid s
      → S.get s k ≡ ok old
      → new.id ≡ old.id
      → (new.id ≡ k) × (S.get s new.id ≡ ok old)
  get-new s k old new v h e =
      let named = e ∙ law.get-id s k old v h in (named, ap (S.get s) named ∙ h)

  -- Saving a new version of a stored request goes through.
  pub saved :
      (m : Manager S) (k : String) (old : ApprovalRequest Command) (a : Answer Command)
      → (event : ApprovalEvent Command) → Valid m.store
      → S.get m.store k ≡ ok old
      → a.stored.id ≡ old.id
      → a.event ≡ some event
      → (t : S.State) × (S.save m.store a.stored ≡ ok t)
        × IsAnswered Valid m k a (
          record m { store = t; event_bus = published event m.event_bus },
          told (heard (published event m.event_bus) m.handlers) a.result,
        )
  saved m k old a event v h same he =
      let (named, found) = get-new m.store k old a.stored v h same in
      let (t, e, u) = law.save-present m.store a.stored old v found in
      (t, e, updated-IsAnswered m t k a event u named he)

  pub lapse :
      (m : Manager S) (k : String) (r : ApprovalRequest Command)
      → Valid m.store
      → S.get m.store k ≡ ok r
      → (t : S.State) × (S.save m.store (record r { status = expired }) ≡ ok t)
        × ((x : Option String)
            → lapse_heard m r ≡ x
            → IsAnswered Valid m k (lapsed r k) (
              record m {
                store = t;
                event_bus =
                    published (approval_expired (record r { status = expired })) m.event_bus;
              },
              told x (err (expired_request k)),
            ))
  lapse m k r v h =
      let (t, e, done) =
        saved m k r (lapsed r k) (approval_expired (record r { status = expired })) v h refl refl in
      (t, e, λ x q. rw (← q) done)

  -- So does a transition from the status that the request has.
  pub transitioned :
      (m : Manager S) (k : String) (expected : ApprovalStatus) (old : ApprovalRequest Command)
      → (a : Answer Command) (event : ApprovalEvent Command) → Valid m.store
      → S.get m.store k ≡ ok old
      → same_status old.status expected ≡ true
      → a.stored.id ≡ old.id
      → a.event ≡ some event
      → (t : S.State) × (S.transition m.store k expected a.stored ≡ ok (t, true))
        × IsAnswered Valid m k a (
          record m { store = t; event_bus = published event m.event_bus },
          told (heard (published event m.event_bus) m.handlers) a.result,
        )
  transitioned m k expected old a event v h hs same he =
      let (named, found) = get-new m.store k old a.stored v h same in
      let (t, e, u) = law.transition-applied m.store expected a.stored old v found hs in
      (
        t,
        ap (λ j. S.transition m.store j expected a.stored) (sym named) ∙ e,
        updated-IsAnswered m t k a event u named he,
      )

  pub blocked :
      (s : S.State) (k : String) (expected : ApprovalStatus) (old new : ApprovalRequest Command)
      → Valid s
      → S.get s k ≡ ok old
      → same_status old.status expected ≡ false
      → new.id ≡ old.id
      → S.transition s k expected new ≡ ok (s, false)
  blocked s k expected old new v h hs same =
      let (named, found) = get-new s k old new v h same in
      ap (λ j. S.transition s j expected new) (sym named)
      ∙ law.transition-refused s expected new old found hs
