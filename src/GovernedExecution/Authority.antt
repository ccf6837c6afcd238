-- ===== src/GovernedExecution/Authority.antt =====
-- src/eag/governed_execution/authority.py: the authority for one mutation, and the comparison of
-- an authority with its predecessor's. An iteration is a natural number.
use text.Mathlib.Text.{◌==◌ as str_eq}
use text.Mathlib.TextEquality.{eq_iff}
use eag.Prelude.{
  ℕ, ◌+◌, ◌≡◌, ◌≢◌, ◌↔◌, not, String, Result, ok, ◌>>◌, guard, ◌==◌, leb, is_blank, arith,
}

pub record Authority : Type 0 where
  pub execution_id : String
  pub iteration : ℕ
  pub context_artifact_id : String
  pub context_fingerprint : String
  pub decision_request_id : String
  pub decision_id : String
  pub proposal_id : String
  pub authorization_id : String
  pub contract_version : String

pub data Field : Type 0 where
  execution_id context_artifact_id context_fingerprint decision_request_id decision_id proposal_id
        authorization_id :
      Field

-- The `FreshIterationAuthorityError`s.
pub data Stale : Type 0 where
  blank reused : Field → Stale
  bad_iteration bad_version other_execution not_next : Stale

abbrev pub version : String
version = "1.0"

-- `__post_init__`
unfoldable pub make : Authority → Result Stale Authority
make a = do
  guard (not (is_blank a.execution_id)) (blank execution_id)
  guard (not (is_blank a.context_artifact_id)) (blank context_artifact_id)
  guard (not (is_blank a.context_fingerprint)) (blank context_fingerprint)
  guard (not (is_blank a.decision_request_id)) (blank decision_request_id)
  guard (not (is_blank a.decision_id)) (blank decision_id)
  guard (not (is_blank a.proposal_id)) (blank proposal_id)
  guard (not (is_blank a.authorization_id)) (blank authorization_id)
  guard (leb 1 a.iteration) bad_iteration
  guard (str_eq a.contract_version version) bad_version
  ok a

-- `validate_fresh_authority`
unfoldable pub validate_fresh : Authority → Authority → Result Stale (Unit {0})
validate_fresh previous candidate = do
  guard (str_eq candidate.execution_id previous.execution_id) other_execution
  guard (candidate.iteration == previous.iteration + 1) not_next
  guard (not (str_eq candidate.context_artifact_id previous.context_artifact_id))
      (reused context_artifact_id)
  guard (not (str_eq candidate.context_fingerprint previous.context_fingerprint))
      (reused context_fingerprint)
  guard (not (str_eq candidate.decision_request_id previous.decision_request_id))
      (reused decision_request_id)
  guard (not (str_eq candidate.decision_id previous.decision_id)) (reused decision_id)
  guard (not (str_eq candidate.proposal_id previous.proposal_id)) (reused proposal_id)
  guard (not (str_eq candidate.authorization_id previous.authorization_id))
      (reused authorization_id)

-- What a fresh authority owes to its predecessor.
pub record IsFresh (previous candidate : Authority) : Type 0 where
  pub same_execution : candidate.execution_id ≡ previous.execution_id
  pub next : candidate.iteration ≡ previous.iteration + 1
  pub artifact : candidate.context_artifact_id ≢ previous.context_artifact_id
  pub fingerprint : candidate.context_fingerprint ≢ previous.context_fingerprint
  pub request : candidate.decision_request_id ≢ previous.decision_request_id
  pub decision : candidate.decision_id ≢ previous.decision_id
  pub proposal : candidate.proposal_id ≢ previous.proposal_id
  pub authorization : candidate.authorization_id ≢ previous.authorization_id

module _ (p c : Authority) where
  -- An authority passes exactly if it is for the next iteration of the same execution and shares
  -- none of the six artifacts with its predecessor.
  pub validate_fresh-IsFresh : (validate_fresh p c ≡ ok tt) ↔ IsFresh p c
  unfolding validate_fresh
  validate_fresh-IsFresh = (
    λ h. ground (
      arith,
      eq_iff c.execution_id p.execution_id,
      eq_iff c.context_artifact_id p.context_artifact_id,
      eq_iff c.context_fingerprint p.context_fingerprint,
      eq_iff c.decision_request_id p.decision_request_id,
      eq_iff c.decision_id p.decision_id,
      eq_iff c.proposal_id p.proposal_id,
      eq_iff c.authorization_id p.authorization_id,
    ),
    λ f. ground (
      arith,
      eq_iff c.execution_id p.execution_id,
      eq_iff c.context_artifact_id p.context_artifact_id,
      eq_iff c.context_fingerprint p.context_fingerprint,
      eq_iff c.decision_request_id p.decision_request_id,
      eq_iff c.decision_id p.decision_id,
      eq_iff c.proposal_id p.proposal_id,
      eq_iff c.authorization_id p.authorization_id,
    ),
  )
