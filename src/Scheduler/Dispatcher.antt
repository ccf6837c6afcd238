-- ===== src/Scheduler/Dispatcher.antt =====
-- src/eag/scheduler/dispatcher.py. A node of the graph is read by the manager as a task.
use eag.Prelude.{
  ◌≡◌, refl, false, ◌||◌, is_blank, strip, err, Bool-cases, inl, inr, true, Option, none, some,
  String, Result, ok, if◌then◌else◌, arith,
}
use text.Mathlib.Text.{◌==◌ as str_eq}
use eag.Workers.Models.{Profile, assigned}
use eag.Workers.Manager.Assignment.{state_of, Agrees}
use eag.Workers.Manager.Choice.{IsAnswer, IsBest, find_best_worker_lem, assign_lem, find-assign}
use eag.Graph.TaskGraph.{TaskNode}
use eag.Workers.Models.{Task}
use eag.Workers.Health.{Health}
use eag.Workers.Registry.{WorkerError}
use eag.Workers.Manager.{Manager, find_best_worker, assign, release}

-- `WorkerAssignment`
pub record WorkerAssignment : Type 0 where
  pub worker_id : String
  pub task_id : String

abbrev pub as_task : TaskNode → Task
as_task n = record { id = n.id; title = n.title; required_capability = n.required_capability }

-- What `dispatch` raises; the `ValueError` of an assignment with the name of its field, and the
-- manager that the call leaves then.
pub data DispatchError : Type 0 where
  worker_error : WorkerError → DispatchError
  empty_text : String → Manager → DispatchError

abbrev pub Dispatch : Type 0
Dispatch = Result DispatchError (Option WorkerAssignment × Manager)

-- `WorkerAssignment.__post_init__`, when the manager has assigned the worker.
unfoldable pub make_assignment : String → String → Manager → Dispatch
make_assignment worker_id task_id m =
    if is_blank worker_id
    then err (empty_text "worker_id" m)
    else if is_blank task_id
    then err (empty_text "task_id" m)
    else ok (some (record { worker_id = strip worker_id; task_id = strip task_id }), m)

unfoldable pub dispatch : Health → Manager → TaskNode → Dispatch
dispatch h m n = elim (find_best_worker h m (as_task n)) [
  | err e ↦ err (worker_error e)
  | ok (none, m₁) ↦ ok (none, m₁)
  | ok (some w, m₁) ↦ elim (assign m₁ w.id n.id) [
    | err e ↦ err (worker_error e)
    | ok (done, m₂) ↦ if done then make_assignment w.id n.id m₂ else ok (none, m₂)
  ]
]

-- `release`
unfoldable pub release_worker : Manager → String → Result WorkerError Manager
release_worker m worker_id = release m worker_id

-- A best worker of the task is assigned, and no other worker's state has changed.
pub record IsTaken (h : Health) (m : Manager) (n : TaskNode) (w : Profile) (m' : Manager)
    : Type 0 where
  pub best : IsBest h m (as_task n) w
  pub states : (k : String) → state_of m' k ≡ (if str_eq w.id k then assigned else state_of m k)

-- What a dispatch answers.
abbrev pub IsDispatched : Health → Manager → TaskNode → Dispatch → Type 0
IsDispatched h m n (ok (none, m')) = IsAnswer h m (as_task n) none × Agrees m m'
IsDispatched h m n (ok (some a, m')) =
    (w : Profile) × IsTaken h m n w m'
    × ((is_blank w.id || is_blank n.id) ≡ false)
    × (a ≡ record { worker_id = strip w.id; task_id = strip n.id })
IsDispatched h m n (err (worker_error e)) = find_best_worker h m (as_task n) ≡ err e
IsDispatched h m n (err (empty_text name m')) =
    (w : Profile) × IsTaken h m n w m'
    × ((is_blank w.id || is_blank n.id) ≡ true)
    × (name ≡ (if is_blank w.id then "worker_id" else "task_id"))

make_assignment_lem :
    (h : Health) (m : Manager) (n : TaskNode) (w : Profile) (m' : Manager)
    → IsTaken h m n w m'
    → IsDispatched h m n (make_assignment w.id n.id m')
unfolding make_assignment
make_assignment_lem h m n w m' t = elim (Bool-cases (is_blank w.id)) [
  | inl no_worker ↦
      rw (no_worker, make_assignment) (w, t, ground (arith, no_worker), ground (arith, no_worker))
  | inr worker ↦ elim (Bool-cases (is_blank n.id)) [
    | inl no_task ↦
        rw (worker, no_task, make_assignment)
          (w, t, ground (arith, worker, no_task), ground (arith, worker))
    | inr task ↦ rw (worker, task, make_assignment) (w, t, ground (arith, worker, task), refl)
  ]
]

dispatched :
    (h : Health) (m : Manager) (n : TaskNode) (r : Result WorkerError (Option Profile × Manager))
    → find_best_worker h m (as_task n) ≡ r
    → IsDispatched h m n (dispatch h m n)
unfolding dispatch
dispatched h m n (err e) found = rw (found, dispatch) found
dispatched h m n (ok (none, m₁)) found =
    rw (found, dispatch) (find_best_worker_lem h m (as_task n) none m₁ found)
dispatched h m n (ok (some w, m₁)) found =
    let (best, agrees) = find_best_worker_lem h m (as_task n) (some w) m₁ found in
    let (m₂, taken, again) = find-assign h m (as_task n) w m₁ found in
    let (free, states) = assign_lem m₁ w.id n.id true m₂ taken in
    rw (found, taken, dispatch)
      (make_assignment_lem h m n w m₂
        (record { best = best; states = λ k. ground (arith, states k, agrees.states k) }))

-- A dispatch answers none where no candidate is available. Else it has marked a best worker of the
-- task as assigned without a change to any other worker's state, and answers the assignment with
-- the two identifiers stripped, or raises the ValueError over the first of them that is blank. An
-- error of the registry is raised only where the search for a worker raises it.
pub dispatch_lem : (h : Health) (m : Manager) (n : TaskNode) → IsDispatched h m n (dispatch h m n)
dispatch_lem h m n = dispatched h m n (find_best_worker h m (as_task n)) refl
