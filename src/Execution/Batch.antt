-- ===== src/Execution/Batch.antt =====
-- src/eag/execution_graph/executor.py. What the workers do is a parameter: the outcome of a task,
-- as a function of the runtime, the worker and the task.
use eag.Prelude.{
  guard, ◌>>◌, is_blank, strip, inl, Bool, true, false, not, ◌&&◌, Option, none, some, List, [],
  ◌∷◌, String, Result, ok, ◌>>=◌, if◌then◌else◌,
}
use eag.Workers.Models.{Profile, Task, Report}
use eag.Workers.Registry.{WorkerError, exception}
use eag.Workers.Manager.{find_best_worker_for_task, assign}
use eag.Workers.Runtime.{Runtime, execute, returned}
use eag.Execution.Graph.{ExecutionNode}

-- `FailurePolicy`
pub data FailurePolicy : Type 0 where
  continue fail_fast retry fallback : FailurePolicy

abbrev pub stops : FailurePolicy → Bool
stops fail_fast = true
stops _ = false

pub record BatchResult : Type 0 where
  pub completed : List String
  pub failed : List String
  pub results : List (String × Report)

abbrev pub nothing : BatchResult
nothing = record { completed = []; failed = []; results = [] }

abbrev pub Work : Type 0
Work = Runtime → Profile → Task → Result String Report

abbrev pub task_of : ExecutionNode → Task
task_of n = record { id = n.task_id; title = strip n.title; required_capability = "" }

abbrev pub add_failed : String → BatchResult → BatchResult
add_failed k b = record b { failed = k ∷ b.failed }

-- The node's report, and its place in one of the two sets.
abbrev pub add_report : String → Report → BatchResult → BatchResult
add_report k report b =
    if report.success
    then record b { completed = k ∷ b.completed; results = (k, report) ∷ b.results }
    else record b { failed = k ∷ b.failed; results = (k, report) ∷ b.results }

abbrev pub Batch : Type 0
Batch = Runtime → Result WorkerError (BatchResult × Runtime)

-- The loop behind a report, given its further rounds: `break` on a failure under `FAIL_FAST`.
unfoldable pub go_on : FailurePolicy → Batch → ExecutionNode → Report → Batch
go_on policy rest n report r =
    if stops policy && not report.success
    then ok (add_report n.id report nothing, r)
    else (rest r >>= λ x. ok (add_report n.id report x.0, x.1))

-- A round behind the search for a worker.
unfoldable pub run_found : FailurePolicy → Work → Batch → ExecutionNode → Option Profile → Batch
run_found policy work rest n none r = rest r >>= λ x. ok (add_failed n.id x.0, x.1)
run_found policy work rest n (some w) r = do
  (assigned, m) ← assign r.manager w.id n.id
  guard (not (is_blank n.title)) (exception "title cannot be empty or whitespace")
  (report, r₁) ← returned (
      execute (record r { manager = m }) w (task_of n)
        (work (record r { manager = m }) w (task_of n)))
  go_on policy rest n report r₁

unfoldable pub run_node : FailurePolicy → Work → Batch → ExecutionNode → Batch
run_node policy work rest n r = do
  (found, m) ← find_best_worker_for_task r.health r.manager (inl n.task_id)
  run_found policy work rest n found (record r { manager = m })

-- `execute_batch`
unfoldable pub execute_batch : FailurePolicy → Work → List ExecutionNode → Batch
execute_batch policy work [] r = ok (nothing, r)
execute_batch policy work (n ∷ ns) r = run_node policy work (execute_batch policy work ns) n r
