-- ===== src/Workers/Registry.antt =====
-- src/eag/workers/registry.py. A dictionary of workers in the order of insertion.
use Prim.Native.String.{compare}
use Prim.Native.Nat.{Ordering}
use text.Mathlib.Text.{◌==◌ as str_eq}
use eag.Prelude.{
  ℕ, Bool, true, false, Option, none, some, List, [], ◌∷◌, String, keep, Result, ok, err,
  if◌then◌else◌, ◌==◌,
}
use eag.Prelude.Keys.{elem}
use eag.Prelude.Sorting.{sort_by}
use eag.Workers.Models.{Profile, Role, Grade, healthy, busy, degraded, unavailable}
use eag.Workers.Health.{Health, get_health}

-- What the workers' code raises: the registry's two exceptions, and any other exception, by its
-- text: one of a handler of the event bus, or a ValueError.
pub data WorkerError : Type 0 where
  already_registered not_found : String → WorkerError
  exception : String → WorkerError

abbrev pub Registry : Type 0
Registry = List (String × Profile)

unfoldable pub lookup : String → Registry → Option Profile
lookup k [] = none
lookup k ((j, w) ∷ r) = if str_eq j k then some w else lookup k r

-- A new key goes to the end.
add_last : Registry → Profile → Registry
add_last [] w = (w.id, w) ∷ []
add_last (e ∷ r) w = e ∷ add_last r w

unfoldable pub register : Registry → Profile → Result WorkerError Registry
unfolding add_last
register r w = elim (lookup w.id r) [
  | some old ↦ err (already_registered w.id)
  | none ↦ ok (add_last r w)
]

-- `pop(key, None)`
unfoldable pub without : String → Registry → Registry
without k [] = []
without k ((j, w) ∷ r) = let rest = without k r in if str_eq j k then r else (j, w) ∷ rest

unfoldable pub unregister : Registry → String → Registry × Bool
unregister r k = (without k r, elim (lookup k r) [ none ↦ false | some w ↦ true ])

unfoldable pub find : Registry → String → Result WorkerError Profile
find r k = elim (lookup k r) [ none ↦ err (not_found k) | some w ↦ ok w ]

abbrev values : Registry → List Profile
values [] = []
values ((k, w) ∷ r) = w ∷ values r

abbrev pub id_le : Profile → Profile → Bool
id_le a b = elim (compare a.id b.id) [ Ordering.gt ↦ false | _ ↦ true ]

-- `list`
unfoldable pub workers : Registry → List Profile
workers r = sort_by id_le (values r)

abbrev pub role_index : Role → ℕ
role_index Role.general = 0
role_index Role.backend = 1
role_index Role.frontend = 2
role_index Role.database = 3
role_index Role.testing = 4
role_index Role.review = 5
role_index Role.documentation = 6
role_index Role.devops = 7
role_index Role.security = 8
role_index Role.ai = 9

unfoldable pub by_role : Registry → Role → List Profile
by_role r role = keep (λ w. role_index w.role == role_index role) (workers r)

unfoldable pub by_capability : Registry → String → List Profile
by_capability r capability = keep (λ w. elem capability w.capabilities) (workers r)

-- `health in [HEALTHY, DEGRADED]`
abbrev pub usable : Grade → Bool
usable healthy = true
usable busy = false
usable degraded = true
usable unavailable = false

unfoldable pub available : Registry → Health → List Profile
available r h = keep (λ w. usable (get_health h w.id)) (workers r)

abbrev pub grade_index : Grade → ℕ
grade_index healthy = 0
grade_index busy = 1
grade_index degraded = 2
grade_index unavailable = 3

unfoldable pub by_health : Registry → Health → Grade → List Profile
by_health r h grade = keep (λ w. grade_index (get_health h w.id) == grade_index grade) (workers r)
