-- ===== src/Workers/Matcher.antt =====
-- src/eag/workers/matcher.py. A score is a whole number; the texts of `reasons` are left out.
pub mod Origin
pub mod Ranking
use text.Mathlib.Text.{◌==◌ as str_eq}
use Prim.Native.String.{compare}
use Prim.Native.Nat.{Ordering}
use eag.Prelude.{
  ℕ, zero, suc, ◌+◌, ◌≡◌, refl, Bool, true, false, not, ◌&&◌, ◌||◌, Option, none, some, List, [],
  ◌∷◌, ◌++◌, String, map, keep, if◌then◌else◌, leb, ltb, ◌==◌,
}
use eag.Prelude.Keys.{elem}
use eag.Prelude.Sorting.{sort_by}
use eag.Workers.Models.{Role, Profile, Task}

pub record CapabilityScore : Type 0 where
  pub worker_id : String
  pub score : ℕ
  pub matched_capabilities : List String
  pub missing_capabilities : List String

-- The values of `WorkerRole`.
abbrev pub role_value : Role → String
role_value Role.general = "general"
role_value Role.backend = "backend"
role_value Role.frontend = "frontend"
role_value Role.database = "database"
role_value Role.testing = "testing"
role_value Role.review = "review"
role_value Role.documentation = "documentation"
role_value Role.devops = "devops"
role_value Role.security = "security"
role_value Role.ai = "ai"

abbrev pub bonus : Bool → ℕ → ℕ
bonus b n = if b then n else 0

abbrev pub min : ℕ → ℕ → ℕ
min a b = if leb a b then a else b

-- The points of a worker for a required capability.
unfoldable pub points : Profile → String → ℕ
points w c =
    if elem c w.capabilities
    then (80 + bonus (elem c w.preferred_capabilities) 20) + bonus (str_eq (role_value w.role) c) 10
    else 0

unfoldable pub score : Profile → Task → CapabilityScore
score w t =
    let c = t.required_capability in
    if str_eq c ""
    then record {
      worker_id = w.id;
      score = min 100 50;
      matched_capabilities = [];
      missing_capabilities = [];
    }
    else record {
      worker_id = w.id;
      score = min 100 (points w c);
      matched_capabilities = if elem c w.capabilities then c ∷ [] else [];
      missing_capabilities = if elem c w.capabilities then [] else c ∷ [];
    }

-- The order of the keys `(-score, worker_id)`.
abbrev pub ranks_before : CapabilityScore → CapabilityScore → Bool
ranks_before a b =
    ltb b.score a.score
    || (a.score == b.score
        && elim (compare a.worker_id b.worker_id) [ Ordering.gt ↦ false | _ ↦ true ])

unfoldable pub rank : List Profile → Task → List CapabilityScore
rank ws t =
    let scores = map (λ w. score w t) ws in
    sort_by ranks_before
      (if str_eq t.required_capability "" then scores else keep (λ s. ltb 0 s.score) scores)

-- The first worker with an identifier.
unfoldable pub worker_with : String → List Profile → Option Profile
worker_with k [] = none
worker_with k (w ∷ ws) = if str_eq w.id k then some w else worker_with k ws

abbrev pub pair_with : List Profile → CapabilityScore → Option (Profile × CapabilityScore)
pair_with ws s = elim (worker_with s.worker_id ws) [ none ↦ none | some w ↦ some (w, s) ]

unfoldable pub best_worker : List Profile → Task → Option (Profile × CapabilityScore)
best_worker ws t = elim (rank ws t) [ [] ↦ none | s ∷ rest ↦ pair_with ws s ]
