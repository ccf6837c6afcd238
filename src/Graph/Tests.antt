-- ===== src/Graph/Tests.antt =====
-- Two tasks and a dependency, and the theorems at them.
use eag.Prelude.{not, is_blank, ◌≡◌, ◌≢◌, ◌&&◌, refl, List, [], ◌∷◌, ok, err}
use eag.Prelude.Keys.{elem}
use eag.Prelude.Sorting.{sort_by, insert_by}
use eag.Graph.Links.{node_map, put, link, append_at, ids}
use eag.Graph.Search.{check_cycles, search_from, dfs, visit_children}
use eag.Graph.TaskGraph.{
  TaskNode, TaskEdge, TaskGraph, normal, high, finish_to_start, construct, add_edges, ready,
  node_id, cycle, text_le, nodes_at,
}
use eag.Graph.TaskGraph.Dag.{IsDag, Constructed, construct_exact}
use eag.Graph.TaskGraph.Topological.{topological_sort, visit_all, sorted_down}
use eag.Graph.TaskGraph.Topological
use eag.Graph.TaskGraph.Topological.Order.{IsTopological, topological_sort_lem}
use eag.Graph.Starts.{may_start}
use eag.Graph.TaskGraph.Ready.{ready_exact, ready-progress}

abbrev design : TaskNode
design = record { id = "a"; title = "design"; required_capability = "plan"; priority = normal }

abbrev build : TaskNode
build = record { id = "b"; title = "build"; required_capability = ""; priority = high }

abbrev tasks : List TaskNode
tasks = design ∷ build ∷ []

abbrev first_edge : TaskEdge
first_edge = record { object = 0; source = "a"; target = "b"; dependency_type = finish_to_start }

abbrev back_edge : TaskEdge
back_edge = record { object = 1; source = "b"; target = "a"; dependency_type = finish_to_start }

constructs : Unit {0}
unfolding construct add_edges node_map put link append_at check_cycles search_from dfs
    visit_children
constructs = tt

abbrev chain : TaskGraph
chain = record {
  nodes = tasks;
  edges = first_edge ∷ [];
  maps = link "a" "b" (record { children = λ k. []; parents = λ k. [] });
}

chain_made : construct tasks (first_edge ∷ []) ≡ ok chain
unfolding constructs
chain_made = refl

loop_found : construct tasks (first_edge ∷ back_edge ∷ []) ≡ err cycle
unfolding constructs
loop_found = refl

construct_exact_example : Constructed tasks (first_edge ∷ []) (construct tasks (first_edge ∷ []))
construct_exact_example = construct_exact tasks (first_edge ∷ [])

ready_exact_example :
    elem "b" (ids node_id (ready chain ("a" ∷ [])))
    ≡ (elem "b" (ids node_id chain.nodes) && may_start chain.maps ("a" ∷ []) "b")
ready_exact_example = ready_exact chain ("a" ∷ []) "b"

ready-progress_example : ready chain ("a" ∷ []) ≢ []
ready-progress_example =
    ready-progress tasks (first_edge ∷ []) chain ("a" ∷ []) "b" chain_made refl refl

chain-IsDag : IsDag tasks (first_edge ∷ []) chain
unfolding constructs
chain-IsDag = (construct_exact tasks (first_edge ∷ [])).0

sort_code : Unit {0}
unfolding topological_sort visit_all sorted_down Topological.dfs sort_by insert_by text_le nodes_at
    node_map put
sort_code = tt

sorted_chain : topological_sort chain ≡ ok tasks
unfolding constructs sort_code
sorted_chain = refl

-- The tests here: a title that is not blank.
topological_sort_lem_example :
    IsTopological chain (λ n. not (is_blank n.title)) (topological_sort chain)
unfolding is_blank
topological_sort_lem_example =
    topological_sort_lem tasks (first_edge ∷ []) chain chain-IsDag (λ n. not (is_blank n.title))
      refl
