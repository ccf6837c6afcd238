-- ===== src/GovernedExecution/Ledger/Compare.antt =====
-- The comparisons of ledger.py's tuples and enumeration members decide equality.
use text.Mathlib.TextEquality.{eq_iff}
use eag.Prelude.{
  ℕ, ◌≡◌, refl, ap, sym, ◌∙◌, true, Option, none, some, List, [], ◌∷◌, ◌==◌, ==_iff, ==_refl, arith,
  if◌then◌else◌,
}
use eag.GovernedExecution.State.{EvidenceKind, StopReason}
use eag.GovernedExecution.Ledger.{
  Evidence, kind_index, same_evidence, same_all, reason_index, same_reason,
}

kind_at : ℕ → EvidenceKind
kind_at n =
    if n == 0
    then EvidenceKind.plan
    else if n == 1
    then EvidenceKind.decision
    else if n == 2
    then EvidenceKind.proposal
    else if n == 3
    then EvidenceKind.authorization
    else if n == 4
    then EvidenceKind.mutation_receipt
    else if n == 5
    then EvidenceKind.verification
    else if n == 6
    then EvidenceKind.reflection
    else if n == 7
    then EvidenceKind.memory
    else EvidenceKind.replanning

kind_at-index : (k : EvidenceKind) → kind_at (kind_index k) ≡ k
unfolding kind_at
kind_at-index EvidenceKind.plan = refl
kind_at-index _ = refl

kind_index-injective : (j k : EvidenceKind) → kind_index j ≡ kind_index k → j ≡ k
kind_index-injective j k h = sym (kind_at-index j) ∙ ap kind_at h ∙ kind_at-index k

reason_at : ℕ → Option StopReason
reason_at n =
    if n == 0
    then none
    else if n == 1
    then some StopReason.success
    else if n == 2
    then some StopReason.iteration_budget_exhausted
    else if n == 3
    then some StopReason.mutation_budget_exhausted
    else if n == 4
    then some StopReason.verification_budget_exhausted
    else if n == 5
    then some StopReason.policy_rejected
    else if n == 6
    then some StopReason.authorization_failed
    else if n == 7
    then some StopReason.provider_failed
    else if n == 8
    then some StopReason.verification_failed
    else if n == 9
    then some StopReason.unrecoverable
    else some StopReason.user_aborted

reason_at-index : (r : Option StopReason) → reason_at (reason_index r) ≡ r
unfolding reason_at
reason_at-index none = refl
reason_at-index (some StopReason.success) = refl
reason_at-index (some _) = refl

pub same_reason→eq : (a b : Option StopReason) → same_reason a b ≡ true → a ≡ b
unfolding same_reason
same_reason→eq a b h =
    sym (reason_at-index a)
    ∙ ap reason_at ((==_iff (reason_index a) (reason_index b)).0 h)
    ∙ reason_at-index b

pub same_reason_refl : (a : Option StopReason) → same_reason a a ≡ true
unfolding same_reason
same_reason_refl a = ==_refl (reason_index a)

same_evidence→eq : (a b : Evidence) → same_evidence a b ≡ true → a ≡ b
unfolding same_evidence
same_evidence→eq a b h = ground (
  arith,
  eq_iff a.reference_id b.reference_id,
  eq_iff a.digest b.digest,
  kind_index-injective a.kind b.kind,
  ==_iff (kind_index a.kind) (kind_index b.kind),
  ==_iff a.metadata b.metadata,
)

same_evidence_refl : (a : Evidence) → same_evidence a a ≡ true
unfolding same_evidence
same_evidence_refl a = ground (
  arith,
  eq_iff a.reference_id a.reference_id,
  eq_iff a.digest a.digest,
  ==_refl (kind_index a.kind),
  ==_refl a.metadata,
)

pub same_all→eq : (as' bs : List Evidence) → same_all as' bs ≡ true → as' ≡ bs
unfolding same_all
same_all→eq [] [] h = refl
same_all→eq [] (b ∷ bs) h = cc
same_all→eq (a ∷ as') [] h = cc
same_all→eq (a ∷ as') (b ∷ bs) h = ground (arith, same_evidence→eq a b, same_all→eq as' bs)

pub same_all_refl : (as' : List Evidence) → same_all as' as' ≡ true
unfolding same_all
same_all_refl [] = refl
same_all_refl (a ∷ as') = ground (arith, same_evidence_refl a, same_all_refl as')
