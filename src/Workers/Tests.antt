-- ===== src/Workers/Tests.antt =====
-- One registered worker, and the theorems at it.
use eag.Prelude.{
  length, ◌==◌, if◌then◌else◌, ◌≡◌, refl, true, false, none, some, [], ◌∷◌, String, Result, ok, err,
  keep, arith,
}
use eag.Prelude.Sorting.{sort_by, insert_by}
use eag.Workers.Models.{Role, Profile, Task, Report, idle, assigned, executing, degraded}
use eag.Workers.Health.{Health, new, get_health, record_failure, record_success}
use eag.Workers.Health.Streaks.{failure, run, streak, get_health-streak}
use eag.Workers.Registry.{find, lookup, workers, by_capability}
use eag.Workers.Manager.{
  Manager, get_instance, collect, choose, find_best_worker, assign, release, get_state, store,
  new_instance,
}
use eag.Workers.Manager.Assignment.{state_of, Agrees, is_available}
use eag.Workers.Manager.Choice.{IsAnswer, find_best_worker_lem, find-assign}
use eag.Workers.Matcher.{best_worker, CapabilityScore, rank, score, points, worker_with}
use eag.Workers.Matcher.Ranking.{IsMatch, best_worker_lem}
use eag.Workers.Delegation.{delegate, available_workers, delegate_lem}
use eag.Workers.Runtime.{
  Runtime, execute, record_outcome, record_exception, finish, worker_started, worker_completed,
  worker_failed, worker_released,
}

abbrev ann : Profile
ann = record {
  id = "ann";
  role = Role.backend;
  capabilities = "python" ∷ [];
  preferred_capabilities = [];
}

abbrev job : Task
job = record { id = "t1"; title = "fix"; required_capability = "python" }

abbrev health : Health
health = new 3 5

abbrev start : Manager
start = record { registry = ("ann", ann) ∷ []; instances = λ k. none }

-- The manager that has met the worker.
abbrev met : Manager
met = store start "ann" (new_instance ann)

abbrev busy : Manager
busy = store met "ann" (record { worker = ann; state = assigned; current_task_id = some "t1" })

abbrev freed : Manager
freed = store busy "ann" (record { worker = ann; state = idle; current_task_id = none })

steps : Unit {0}
unfolding find_best_worker collect get_instance choose by_capability workers sort_by insert_by find
    lookup assign release get_state execute record_outcome record_exception finish delegate
    available_workers best_worker rank score points worker_with get_health record_failure
    record_success
steps = tt

found : find_best_worker health start job ≡ ok (some ann, met)
unfolding steps
found = refl

taken : assign met "ann" "t1" ≡ ok (true, busy)
unfolding steps
taken = refl

released : release busy "ann" ≡ ok freed
unfolding steps
released = refl

find_best_worker_lem_example : IsAnswer health start job (some ann) × Agrees start met
find_best_worker_lem_example = find_best_worker_lem health start job (some ann) met found

find-assign_example :
    (m₂ : Manager) × (assign met "ann" "t1" ≡ ok (true, m₂))
    × ((other : String) → assign m₂ "ann" other ≡ ok (false, m₂))
find-assign_example = find-assign health start job ann met found

get_health-streak_example :
    get_health (run (new 3 5) (failure "ann" ∷ failure "ann" ∷ failure "ann" ∷ [])) "ann" ≡ degraded
unfolding streak
get_health-streak_example =
    get_health-streak 3 5 (omega arith) (omega arith) "ann"
      (failure "ann" ∷ failure "ann" ∷ failure "ann" ∷ [])

best_worker_lem_example : IsMatch (ann ∷ []) job (best_worker (ann ∷ []) job)
best_worker_lem_example = best_worker_lem (ann ∷ []) job

abbrev ann_score : CapabilityScore
ann_score = record {
  worker_id = "ann";
  score = 80;
  matched_capabilities = "python" ∷ [];
  missing_capabilities = [];
}

delegated : delegate health start job ≡ ok (some (ann, ann_score), met)
unfolding steps
delegated = refl

delegate_lem_example :
    IsMatch (keep (is_available health start) (workers start.registry)) job (some (ann, ann_score))
    × Agrees start met
delegate_lem_example = delegate_lem health start job (some (ann, ann_score)) met delegated

abbrev runtime : Runtime
runtime = record {
  manager = busy;
  health = health;
  events = [];
  handlers = λ events. none;
  completed_tasks = 0;
  failed_tasks = 0;
}

abbrev raised : Result String Report
raised = err "boom"

abbrev after : Runtime
after = record {
  manager =
      store
        (store busy "ann" (record { worker = ann; state = executing; current_task_id = some "t1" }))
        "ann" (record { worker = ann; state = idle; current_task_id = none });
  health = record_failure health "ann";
  events = worker_started "ann" "t1" ∷ worker_failed "ann" "t1" "boom" ∷ worker_released "ann" ∷ [];
  handlers = λ events. none;
  completed_tasks = 0;
  failed_tasks = 1;
}

abbrev report : Report
report = record { worker_id = "ann"; task_id = "t1"; success = false }

executed : execute runtime ann job raised ≡ (after, ok report)
unfolding steps
executed = refl

-- A handler of the completion raises: the success is recorded, and then a failure.
abbrev strict : Runtime
strict = record runtime { handlers = λ events. if length events == 2 then some "no" else none }

abbrev praise : Result String Report
praise = ok (record { worker_id = "ann"; task_id = "t1"; success = true })

twice_recorded :
    (execute strict ann job praise).0.events
    ≡ worker_started "ann" "t1"
      ∷ worker_completed "ann" "t1" true
      ∷ worker_failed "ann" "t1" "no"
      ∷ worker_released "ann"
      ∷ []
unfolding steps
twice_recorded = refl

-- A handler of the start raises: the worker is not released.
left_executing :
    state_of
      (execute (record runtime { handlers = λ events. some "no" }) ann job praise).0.manager
      "ann"
    ≡ executing
unfolding steps
left_executing = refl
