-- ===== src/Approval/Manager/Answers/Decisions.antt =====
-- `approve`, `reject` and `expire` of src/eag/approval/manager.py on a stored request.
use eag.Prelude.{
  none, some, Option-cases, ◌≡◌, refl, ℕ, Bool, true, Option, String, ok, inl, inr, Bool-cases,
}
use eag.Approval.Models.{ApprovalStatus, pending, approved, ApprovalRequest, is_due, same_status}
use eag.Approval.Store.{ApprovalStore, IsLawful}
use eag.Approval.Manager.{Manager, approve, reject, expire, expire_if_needed}
use eag.Approval.Manager.Answers.{
  answer, run, IsAnswered, approving, rejecting, expiring, approving_answer, rejecting_answer,
  expiring_answer,
}
use eag.Approval.Manager.Answers.Branches.{refused-IsAnswered, saved, lapse, lapse_heard}

module _ {Command : Type 0} {S : ApprovalStore Command} {Valid : S.State → Type 0}
    (law : IsLawful S Valid) where
  pub approve-by_status :
      (m : Manager S) (k : String) (reason : Option String) (now : ℕ) (r : ApprovalRequest Command)
      → (s : ApprovalStatus) → Valid m.store
      → S.get m.store k ≡ ok (record r { status = s })
      → (same : Command → Command → Bool)
      → IsAnswered Valid m k
          (answer same (approving k reason now) (record r { status = s }))
          (run same (approving k reason now) m)
  unfolding answer run approve expire_if_needed same_status
  approve-by_status m k reason now r pending v h same =
      elim (Bool-cases (is_due r.expires_at now)) [
        | inl due ↦
            let (t, e, done) = lapse law m k _ v h in
            elim (Option-cases (lapse_heard m r)) [
              | inl quiet ↦ rw (h, due, e, quiet) (done none quiet)
              | inr (text, loud) ↦ rw (h, due, e, loud) (done (some text) loud)
            ]
        | inr early ↦
            let (t, e, done) =
              saved law m k _ (approving_answer (record r { status = pending }) reason now pending)
                _ v h refl refl in
            rw (h, early, e) done
      ]
  approve-by_status m k reason now r approved v h same =
      elim (Bool-cases (is_due r.expires_at now)) [
        | inl due ↦
            let (t, e, done) = lapse law m k _ v h in
            elim (Option-cases (lapse_heard m r)) [
              | inl quiet ↦ rw (h, due, e, quiet) (done none quiet)
              | inr (text, loud) ↦ rw (h, due, e, loud) (done (some text) loud)
            ]
        | inr early ↦ rw (h, early) (refused-IsAnswered law m k _ _ v h)
      ]
  approve-by_status m k reason now r s v h same =
      rw h (refused-IsAnswered law m k (record r { status = s }) _ v h)

  pub reject-by_status :
      (m : Manager S) (k : String) (reason : Option String) (now : ℕ) (r : ApprovalRequest Command)
      → (s : ApprovalStatus) → Valid m.store
      → S.get m.store k ≡ ok (record r { status = s })
      → (same : Command → Command → Bool)
      → IsAnswered Valid m k
          (answer same (rejecting k reason now) (record r { status = s }))
          (run same (rejecting k reason now) m)
  unfolding answer run reject expire_if_needed same_status
  reject-by_status m k reason now r pending v h same = elim (Bool-cases (is_due r.expires_at now)) [
    | inl due ↦
        let (t, e, done) = lapse law m k _ v h in
        elim (Option-cases (lapse_heard m r)) [
          | inl quiet ↦ rw (h, due, e, quiet) (done none quiet)
          | inr (text, loud) ↦ rw (h, due, e, loud) (done (some text) loud)
        ]
    | inr early ↦
        let (t, e, done) =
          saved law m k _ (rejecting_answer (record r { status = pending }) reason now pending) _ v
            h refl refl in
        rw (h, early, e) done
  ]
  reject-by_status m k reason now r approved v h same =
      elim (Bool-cases (is_due r.expires_at now)) [
        | inl due ↦
            let (t, e, done) = lapse law m k _ v h in
            elim (Option-cases (lapse_heard m r)) [
              | inl quiet ↦ rw (h, due, e, quiet) (done none quiet)
              | inr (text, loud) ↦ rw (h, due, e, loud) (done (some text) loud)
            ]
        | inr early ↦ rw (h, early) (refused-IsAnswered law m k _ _ v h)
      ]
  reject-by_status m k reason now r s v h same =
      rw h (refused-IsAnswered law m k (record r { status = s }) _ v h)

  pub expire-by_status :
      (m : Manager S) (k : String) (now : ℕ) (r : ApprovalRequest Command)
      → (s : ApprovalStatus) → Valid m.store
      → S.get m.store k ≡ ok (record r { status = s })
      → (same : Command → Command → Bool)
      → IsAnswered Valid m k
          (answer same (expiring k now) (record r { status = s }))
          (run same (expiring k now) m)
  unfolding answer run expire same_status
  expire-by_status m k now r pending v h same = elim (Bool-cases (is_due r.expires_at now)) [
    | inl due ↦
        let (t, e, done) =
          saved law m k _ (expiring_answer (record r { status = pending }) k true pending) _ v h
            refl refl in
        rw (h, due, e) done
    | inr early ↦ rw (h, early) (refused-IsAnswered law m k _ _ v h)
  ]
  expire-by_status m k now r approved v h same = elim (Bool-cases (is_due r.expires_at now)) [
    | inl due ↦
        let (t, e, done) =
          saved law m k _ (expiring_answer (record r { status = approved }) k true approved) _ v h
            refl refl in
        rw (h, due, e) done
    | inr early ↦ rw (h, early) (refused-IsAnswered law m k _ _ v h)
  ]
  expire-by_status m k now r s v h same = rw h (refused-IsAnswered law m k _ _ v h)
