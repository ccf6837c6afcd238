-- ===== src/Approval/Manager/Answers/Reservations.antt =====
-- `reserve`, `release` and `consume` of src/eag/approval/manager.py on a stored request.
use eag.Prelude.{
  err, none, some, Option, Option-cases, ◌≡◌, refl, ℕ, Bool, true, false, String, ok, inl, inr,
  Bool-cases,
}
use eag.Approval.Models.{
  ApprovalStatus, pending, approved, reserved, expired, ApprovalRequest, approval_released,
  command_mismatch, is_due, same_status,
}
use eag.Approval.Store.{ApprovalStore, IsLawful}
use eag.Approval.Manager.{
  Manager, published, heard, told, reserve, release, consume, expire_if_needed,
}
use eag.Approval.Manager.Answers.{
  answer, run, IsAnswered, reserving, releasing, consuming, reserving_answer, releasing_answer,
  consuming_answer,
}
use eag.Approval.Manager.Answers.Branches.{
  refused-IsAnswered, lapse, lapse_heard, transitioned, blocked,
}

module _ {Command : Type 0} {S : ApprovalStore Command} {Valid : S.State → Type 0}
    (law : IsLawful S Valid) where
  pub reserve-by_status :
      (m : Manager S) (k : String) (command : Command) (now : ℕ) (r : ApprovalRequest Command)
      → (s : ApprovalStatus) → Valid m.store
      → S.get m.store k ≡ ok (record r { status = s })
      → (same : Command → Command → Bool)
      → IsAnswered Valid m k
          (answer same (reserving k command now) (record r { status = s }))
          (run same (reserving k command now) m)
  unfolding answer run reserve expire_if_needed same_status
  reserve-by_status m k command now r pending v h same =
      elim (Bool-cases (is_due r.expires_at now)) [
        | inl due ↦
            let (t, e, done) = lapse law m k _ v h in
            elim (Option-cases (lapse_heard m r)) [
              | inl quiet ↦ rw (h, due, e, quiet) (done none quiet)
              | inr (text, loud) ↦ rw (h, due, e, loud) (done (some text) loud)
            ]
        | inr early ↦ elim (Bool-cases (same r.command command)) [
          | inr other ↦ rw (h, early, other) (refused-IsAnswered law m k _ _ v h)
          | inl equal ↦
              let stays =
                blocked law m.store k approved (record r { status = pending })
                  (record r { status = reserved }) v h refl refl in
              rw (h, early, equal, stays, h, h) (refused-IsAnswered law m k _ _ v h)
        ]
      ]
  reserve-by_status m k command now r approved v h same =
      elim (Bool-cases (is_due r.expires_at now)) [
        | inl due ↦
            let (t, e, done) = lapse law m k _ v h in
            elim (Option-cases (lapse_heard m r)) [
              | inl quiet ↦ rw (h, due, e, quiet) (done none quiet)
              | inr (text, loud) ↦ rw (h, due, e, loud) (done (some text) loud)
            ]
        | inr early ↦ elim (Bool-cases (same r.command command)) [
          | inr other ↦ rw (h, early, other) (refused-IsAnswered law m k _ _ v h)
          | inl equal ↦
              let (t, e, done) =
                transitioned law m k approved _
                  (reserving_answer (record r { status = approved }) approved) _ v h refl refl
                  refl in
              rw (h, early, equal, e) done
        ]
      ]
  reserve-by_status m k command now r expired v h same = rw h (refused-IsAnswered law m k _ _ v h)
  reserve-by_status m k command now r s v h same = elim (Bool-cases (same r.command command)) [
    | inl equal ↦
        let stays =
          blocked law m.store k approved (record r { status = s }) (record r { status = reserved })
            v h refl refl in
        rw (h, equal, stays, h, h) (refused-IsAnswered law m k _ _ v h)
    | inr other ↦ rw (h, other) (refused-IsAnswered law m k _ _ v h)
  ]

  pub release-by_status :
      (m : Manager S) (k : String) (r : ApprovalRequest Command)
      → (s : ApprovalStatus) → Valid m.store
      → S.get m.store k ≡ ok (record r { status = s })
      → (same : Command → Command → Bool)
      → IsAnswered Valid m k
          (answer same (releasing k) (record r { status = s }))
          (run same (releasing k) m)
  unfolding answer run release same_status
  release-by_status m k r reserved v h same =
      let (t, e, done) =
        transitioned law m k reserved _ (releasing_answer (record r { status = reserved }) reserved)
          _ v h refl refl refl in
      rw (h, e) done
  release-by_status m k r s v h same =
      let stays =
        blocked law m.store k reserved (record r { status = s }) (record r { status = approved }) v
          h refl refl in
      rw (h, stays, h, h) (refused-IsAnswered law m k _ _ v h)

  abbrev release_heard : Manager S → ApprovalRequest Command → Option String
  release_heard m r =
      heard (published (approval_released (record r { status = approved })) m.event_bus) m.handlers

  released :
      (m : Manager S) (k : String) (r : ApprovalRequest Command) (t : S.State) (x : Option String)
      → S.get m.store k ≡ ok (record r { status = reserved })
      → S.transition m.store k reserved (record r { status = approved }) ≡ ok (t, true)
      → release_heard m r ≡ x
      → release k m ≡ (
        record m {
          store = t;
          event_bus = published (approval_released (record r { status = approved })) m.event_bus;
        },
        told x (ok (record r { status = approved })),
      )
  unfolding release
  released m k r t x h e q = rw (h, e, q) refl

  -- The reservation is given back before the mismatch is raised.
  given_back :
      (m : Manager S) (k : String) (now : ℕ) (r : ApprovalRequest Command)
      → Valid m.store
      → S.get m.store k ≡ ok (record r { status = reserved })
      → (t : S.State) × (S.transition m.store k reserved (record r { status = approved })
          ≡ ok (t, true))
        × ((x : Option String)
            → release_heard m r ≡ x
            → IsAnswered Valid m k
                (consuming_answer (record r { status = reserved }) k now reserved false)
                (
                  record m {
                    store = t;
                    event_bus =
                        published (approval_released (record r { status = approved })) m.event_bus;
                  },
                  told x (err (command_mismatch k)),
                ))
  unfolding same_status
  given_back m k now r v h =
      let (t, e, done) =
        transitioned law m k reserved _
          (consuming_answer (record r { status = reserved }) k now reserved false) _ v h refl refl
          refl in
      (t, e, λ x q. rw (← q) done)

  pub consume-by_status :
      (m : Manager S) (k : String) (command : Command) (now : ℕ) (r : ApprovalRequest Command)
      → (s : ApprovalStatus) → Valid m.store
      → S.get m.store k ≡ ok (record r { status = s })
      → (same : Command → Command → Bool)
      → IsAnswered Valid m k
          (answer same (consuming k command now) (record r { status = s }))
          (run same (consuming k command now) m)
  unfolding answer run consume expire_if_needed same_status
  consume-by_status m k command now r pending v h same =
      elim (Bool-cases (is_due r.expires_at now)) [
        | inl due ↦
            let (t, e, done) = lapse law m k _ v h in
            elim (Option-cases (lapse_heard m r)) [
              | inl quiet ↦ rw (h, due, e, quiet) (done none quiet)
              | inr (text, loud) ↦ rw (h, due, e, loud) (done (some text) loud)
            ]
        | inr early ↦ rw (h, early) (refused-IsAnswered law m k _ _ v h)
      ]
  consume-by_status m k command now r approved v h same =
      elim (Bool-cases (is_due r.expires_at now)) [
        | inl due ↦
            let (t, e, done) = lapse law m k _ v h in
            elim (Option-cases (lapse_heard m r)) [
              | inl quiet ↦ rw (h, due, e, quiet) (done none quiet)
              | inr (text, loud) ↦ rw (h, due, e, loud) (done (some text) loud)
            ]
        | inr early ↦ rw (h, early) (refused-IsAnswered law m k _ _ v h)
      ]
  consume-by_status m k command now r reserved v h same =
      elim (Bool-cases (same r.command command)) [
        | inl equal ↦
            let (t, e, done) =
              transitioned law m k reserved _
                (consuming_answer (record r { status = reserved }) k now reserved true) _ v h refl
                refl refl in
            rw (h, equal, e) done
        | inr other ↦
            let (t, e, done) = given_back m k now r v h in
            elim (Option-cases (release_heard m r)) [
              | inl quiet ↦
                  let freed = released m k r t none h e quiet in
                  rw (h, other, freed, freed, freed) (done none quiet)
              | inr (text, loud) ↦
                  let freed = released m k r t (some text) h e loud in
                  rw (h, other, freed, freed, freed) (done (some text) loud)
            ]
      ]
  consume-by_status m k command now r s v h same = rw h (refused-IsAnswered law m k _ _ v h)
