-- ===== src/Execution/Runtime.antt =====
-- src/eag/execution_graph/runtime.py. The loop takes fuel, which bounds its rounds.
pub mod Termination
pub mod Completion
use eag.Prelude.{
  ℕ, zero, suc, Bool, true, false, not, ◌&&◌, List, [], ◌∷◌, ◌++◌, String, Result, ok, err,
  if◌then◌else◌, is_empty, length,
}
use eag.Workers.Registry.{WorkerError}
use eag.Workers.Runtime.{Runtime}
use eag.Execution.Graph.{ExecutionNode, ExecutionGraph, ready, is_complete}
use eag.Execution.Batch.{FailurePolicy, Work, stops, BatchResult, execute_batch}

-- The sets `completed` and `failed`.
pub record Progress : Type 0 where
  pub completed : List String
  pub failed : List String

-- `completed.union(failed)`
abbrev pub settled : Progress → List String
settled p = p.completed ++ p.failed

-- What the loop answers; `no_fuel` is the model's own.
pub data Outcome : Type 0 where
  finished : Progress → Runtime → Outcome
  raised : WorkerError → Outcome
  no_fuel : Outcome

abbrev pub update : Progress → BatchResult → Progress
update p b = record { completed = b.completed ++ p.completed; failed = b.failed ++ p.failed }

module _ (policy : FailurePolicy) (work : Work) (g : ExecutionGraph) where
  -- The loop behind its batch; `again` is the next round.
  abbrev pub after_batch :
      (Progress → Runtime → Outcome)
      → Progress
      → Result WorkerError (BatchResult × Runtime)
      → Outcome
  after_batch again p (err e) = raised e
  after_batch again p (ok (b, r)) = elim (stops policy && not (is_empty b.failed)) [
    | true ↦ finished (update p b) r
    | false ↦ again (update p b) r
  ]

  -- A round with the nodes that are ready.
  abbrev pub round :
      (Progress → Runtime → Outcome) → Progress → Runtime → List ExecutionNode → Outcome
  round again p r [] = finished p r
  round again p r (n ∷ ns) = after_batch again p (execute_batch policy work (n ∷ ns) r)

  unfoldable pub loop : ℕ → Progress → Runtime → Outcome
  loop zero p r = no_fuel
  loop (suc fuel) p r = elim (is_complete g (settled p)) [
    | true ↦ finished p r
    | false ↦ round (loop fuel) p r (ready g (settled p))
  ]

-- `ParallelExecutionRuntime.execute`; each round settles a node, so that one round more than there
-- are nodes is enough.
unfoldable pub execute : FailurePolicy → Work → ExecutionGraph → Runtime → Outcome
execute policy work g r =
    loop policy work g (suc (length g.nodes)) (record { completed = []; failed = [] }) r
