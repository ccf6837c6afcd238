-- ===== src/Execution/Tests.antt =====
-- Two nodes run by a worker, and the theorems at them.
use eag.Prelude.{strip, is_blank, ◌≡◌, ◌≢◌, refl, some, none, [], ◌∷◌, ok, true}
use eag.Prelude.{◌&&◌}
use eag.Prelude.Keys.{elem}
use eag.Prelude.Sorting.{sort_by, insert_by}
use eag.Graph.Links.{node_map, put, append_at, ids}
use eag.Graph.Search.{check_cycles, search_from, dfs, visit_children}
use eag.Graph.Starts.{may_start}
use eag.Execution.Artifacts.{
  ArtifactNode, ArtifactGraph, construct_artifacts, add_artifact_edges, IsLinked,
  construct_artifacts-IsLinked,
}
use eag.Execution.Graph.{construct, add_edges, ready, is_complete, node_id}
use eag.Execution.Graph.Dag.{Constructed, graph_exact}
use eag.Execution.Batch.{execute_batch, run_node, run_found, go_on}
use eag.Execution.Runtime.{Outcome, Progress, finished, settled, loop}
use eag.Execution.Runtime.Completion.{execute-settled, ready_nodes}
use eag.Graph.TaskGraph.{text_le}
use eag.Workers.Manager.{
  find_best_worker_for_task, find_best_worker, collect, get_instance, choose, assign, release,
}
use eag.Workers.Registry.{by_capability, workers, find, lookup}
use eag.Workers.Health.{get_health, record_success}
use eag.Workers.Runtime as Workers
use eag.Workers.Runtime.{record_outcome}
use eag.Workers.Models.{Role, Profile}
use eag.Workers.Health.{new, update}
use eag.Workers.Runtime.{Runtime}
use eag.Graph.Links.{link, no_links}
use eag.Execution.Graph.{ExecutionGraph}
use eag.Execution.Batch.{continue, Work}
use eag.Execution.Runtime.{no_fuel, execute}
use eag.Execution.Runtime.Termination.{execute-ends}
use eag.Execution.Messaging.{WorkerMessage, MessageRouter, route, get_mailbox, route_lem}

abbrev ann : Profile
ann = record {
  id = "ann";
  role = Role.backend;
  capabilities = "python" ∷ [];
  preferred_capabilities = [];
}

abbrev graph : ExecutionGraph
graph = record {
  nodes =
      record { id = "a"; task_id = "t1"; title = "design" }
      ∷ record { id = "b"; task_id = "t2"; title = "build" }
      ∷ [];
  edges = record { source = "a"; target = "b" } ∷ [];
  maps = link "a" "b" no_links;
}

abbrev runtime : Runtime
runtime = record {
  manager = record { registry = ("ann", ann) ∷ []; instances = λ k. none };
  health = new 1 3;
  events = [];
  handlers = λ events. none;
  completed_tasks = 0;
  failed_tasks = 0;
}

-- Workers that always succeed.
abbrev diligent : Work
diligent r w t = ok (record { worker_id = w.id; task_id = t.id; success = true })

execute-ends_example : execute continue diligent graph runtime ≢ no_fuel
execute-ends_example = execute-ends continue diligent graph runtime

abbrev greeting : WorkerMessage
greeting = record {
  id = "m1";
  sender_id = "bob";
  receiver_id = "ann";
  msg_type = "warning";
  content = "hello";
}

abbrev router : MessageRouter
router = update (λ k. none) "ann" (some [])

abbrev routed : MessageRouter
routed = update router "ann" (some (greeting ∷ []))

route_done : route router greeting ≡ ok routed
unfolding route
route_done = refl

route_lem_example : get_mailbox routed "ann" ≡ ok (greeting ∷ [])
unfolding get_mailbox
route_lem_example = route_lem router greeting routed route_done "ann"

execution_steps : Unit {0}
unfolding construct add_edges node_map put link append_at check_cycles search_from dfs
    visit_children execute loop is_complete ready sort_by insert_by execute_batch run_node run_found
    go_on find_best_worker_for_task find_best_worker collect get_instance choose by_capability
    workers find lookup assign release get_health Workers.execute record_outcome
    Workers.record_exception Workers.finish strip is_blank record_success text_le
execution_steps = tt

graph_made : construct graph.nodes graph.edges ≡ ok graph
unfolding execution_steps
graph_made = refl

graph_exact_example : Constructed graph.nodes graph.edges (construct graph.nodes graph.edges)
graph_exact_example = graph_exact graph.nodes graph.edges

abbrev progress_of : Outcome → Progress
progress_of (finished p r) = p
progress_of _ = record { completed = []; failed = [] }

abbrev runtime_of : Outcome → Runtime
runtime_of (finished p r) = r
runtime_of _ = runtime

abbrev result : Outcome
result = execute continue diligent graph runtime

all_run : progress_of result ≡ record { completed = "b" ∷ "a" ∷ []; failed = [] }
unfolding execution_steps
all_run = refl

runs : execute continue diligent graph runtime ≡ finished (progress_of result) (runtime_of result)
unfolding execution_steps
runs = refl

execute-settled_example : elem "b" (settled (progress_of result)) ≡ true
execute-settled_example =
    execute-settled graph.nodes graph.edges graph graph_made continue diligent refl runtime
      (progress_of result) (runtime_of result) "b" runs refl

ready_nodes_example :
    elem "b" (ids node_id (ready graph ("a" ∷ [])))
    ≡ (elem "b" (ids node_id graph.nodes) && may_start graph.maps ("a" ∷ []) "b")
ready_nodes_example = ready_nodes graph ("a" ∷ []) "b"

abbrev plan_file : ArtifactNode
plan_file = record { id = "p"; path = "plan.md"; creator_worker_id = "ann"; version = 1 }

-- An artifact that depends on itself.
abbrev self_made : ArtifactGraph
self_made = record {
  nodes = plan_file ∷ [];
  edges = record { source = "p"; target = "p" } ∷ [];
  maps = link "p" "p" no_links;
}

self_made_accepted : construct_artifacts self_made.nodes self_made.edges ≡ ok self_made
unfolding construct_artifacts add_artifact_edges node_map put link append_at
self_made_accepted = refl

construct_artifacts-IsLinked_example : IsLinked self_made.nodes self_made.edges self_made
construct_artifacts-IsLinked_example =
    construct_artifacts-IsLinked self_made.nodes self_made.edges self_made self_made_accepted
