-- ===== src/Workers/Manager.antt =====
-- src/eag/workers/manager.py. `_get_instance` reads the registry where the manager has no instance
-- yet, and raises where the registry has no such worker either.
pub mod Assignment
pub mod Preference
pub mod Choice
use text.Mathlib.Text.{◌==◌ as str_eq}
use eag.Prelude.{◌⊎◌, inl, inr}
use eag.Prelude.{
  ℕ, Bool, true, false, not, ◌&&◌, Option, none, some, List, [], ◌∷◌, String, Result, ok, err,
  ◌>>=◌, keep, if◌then◌else◌,
}
use eag.Prelude.Keys.{elem}
use eag.Workers.Models.{Profile, Task, State, idle, assigned, executing}
use eag.Workers.Health.{Health, get_health, update}
use eag.Workers.Registry.{Registry, WorkerError, find, workers, by_capability, usable}

-- `WorkerInstance`; its worker is the registry's at the time of its making.
pub record Instance : Type 0 where
  pub worker : Profile
  pub state : State
  pub current_task_id : Option String

-- The manager's registry and its dictionary of instances.
pub record Manager : Type 0 where
  pub registry : Registry
  pub instances : String → Option Instance

abbrev pub new_instance : Profile → Instance
new_instance w = record { worker = w; state = idle; current_task_id = none }

abbrev pub store : Manager → String → Instance → Manager
store m id i = record m { instances = update m.instances id (some i) }

make_instance : Manager → String → Option Instance → Result WorkerError (Instance × Manager)
make_instance m id (some i) = ok (i, m)
make_instance m id none = do
  w ← find m.registry id
  ok (new_instance w, store m id (new_instance w))

-- `_get_instance`
unfoldable pub get_instance : Manager → String → Result WorkerError (Instance × Manager)
unfolding make_instance
get_instance m id = make_instance m id (m.instances id)

abbrev pub is_idle : State → Bool
is_idle idle = true
is_idle _ = false

abbrev pub is_busy : State → Bool
is_busy executing = true
is_busy assigned = true
is_busy _ = false

-- The loop over the candidates: the available ones, in their order.
unfoldable pub collect :
    Health → Manager → List Profile → Result WorkerError (List Profile × Manager)
collect h m [] = ok ([], m)
collect h m (w ∷ ws) = do
  (i, m₁) ← get_instance m w.id
  (rest, m₂) ← collect h m₁ ws
  ok (if is_idle i.state && usable (get_health h w.id) then w ∷ rest else rest, m₂)

abbrev pub first {ℓ} : {A : Type ℓ} → List A → Option A
first [] = none
first (a ∷ l) = some a

abbrev pub or_else {ℓ} : {A : Type ℓ} → Option A → Option A → Option A
or_else (some a) b = some a
or_else none b = b

-- The preferred worker of the available ones, and otherwise the first.
unfoldable pub choose : String → List Profile → Option Profile
choose capability ws =
    if str_eq capability ""
    then first ws
    else or_else (first (keep (λ w. elem capability w.preferred_capabilities) ws)) (first ws)

abbrev pub candidates : Manager → Task → List Profile
candidates m t =
    if str_eq t.required_capability ""
    then workers m.registry
    else by_capability m.registry t.required_capability

unfoldable pub find_best_worker :
    Health → Manager → Task → Result WorkerError (Option Profile × Manager)
find_best_worker h m t = do
  (ws, m₁) ← collect h m (candidates m t)
  ok (choose t.required_capability ws, m₁)

unfoldable pub assign : Manager → String → String → Result WorkerError (Bool × Manager)
assign m worker_id task_id = do
  (i, m₁) ← get_instance m worker_id
  ok (
      if is_idle i.state
      then (
        true,
        store m₁ worker_id (record i { state = assigned; current_task_id = some task_id }),
      )
      else (false, m₁))

unfoldable pub release : Manager → String → Result WorkerError Manager
release m worker_id = do
  (i, m₁) ← get_instance m worker_id
  ok (store m₁ worker_id (record i { state = idle; current_task_id = none }))

unfoldable pub get_state : Manager → String → Result WorkerError (State × Manager)
get_state m worker_id = do (i, m₁) ← get_instance m worker_id; ok (i.state, m₁)

abbrev pub seems_idle : Manager → Profile → Bool
seems_idle m w = elim (m.instances w.id) [ none ↦ true | some i ↦ is_idle i.state ]

abbrev pub seems_busy : Manager → Profile → Bool
seems_busy m w = elim (m.instances w.id) [ none ↦ false | some i ↦ is_busy i.state ]

unfoldable pub idle_workers : Manager → List Profile
idle_workers m = keep (seems_idle m) (workers m.registry)

unfoldable pub busy_workers : Manager → List Profile
busy_workers m = keep (seems_busy m) (workers m.registry)

-- The task that stands for a bare identifier.
abbrev pub legacy_task : String → Task
legacy_task id = record { id = id; title = "Legacy Execution"; required_capability = "python" }

-- `find_best_worker_for_task`, for an identifier or for a task.
unfoldable pub find_best_worker_for_task :
    Health → Manager → String ⊎ Task → Result WorkerError (Option Profile × Manager)
find_best_worker_for_task h m (inl id) = find_best_worker h m (legacy_task id)
find_best_worker_for_task h m (inr t) = find_best_worker h m t
