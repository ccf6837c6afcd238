-- ===== src/Graph/TaskGraph/Topological.antt =====
-- `TaskGraph.topological_sort` of src/eag/task_graph/graph.py. The list `stack` is kept with the last
-- item first, as `reversed` gives it, and holds identifiers, whose nodes are looked up at the end.
-- The nested `dfs` takes fuel for the depth of its calls.
pub mod Visits
pub mod Order
use eag.Prelude.{
  ℕ, zero, suc, length, Bool, true, false, Option, none, some, List, [], ◌∷◌, String, Result, ok,
  err,
}
use eag.Prelude.Keys.{elem}
use eag.Prelude.Sorting.{sort_by}
use eag.Graph.Links.{node_map, ids}
use eag.Graph.TaskGraph.{TaskNode, TaskGraph, node_id, text_le, nodes_at}

-- The set `visited` and the list `stack`.
pub record Sorted : Type 0 where
  pub visited : List String
  pub stack : List String

-- `sorted(..., reverse=True)` on texts.
unfoldable pub sorted_down : List String → List String
sorted_down l = sort_by (λ s t. text_le t s) l

-- The loop over the children, and that over the start nodes; `call` is the call of `dfs`.
unfoldable pub visit_all : (String → Sorted → Option Sorted) → List String → Sorted → Option Sorted
visit_all call [] t = some t
visit_all call (c ∷ cs) t = elim (elem c t.visited) [
  | true ↦ visit_all call cs t
  | false ↦ elim (call c t) [ none ↦ none | some t' ↦ visit_all call cs t' ]
]

-- `stack.append(...)` behind the loop.
abbrev pub push : String → Option Sorted → Option Sorted
push n none = none
push n (some t) = some (record t { stack = n ∷ t.stack })

unfoldable pub dfs : (String → List String) → ℕ → String → Sorted → Option Sorted
dfs children zero n t = none
dfs children (suc fuel) n t = push n (
    visit_all (dfs children fuel) (sorted_down (children n))
      (record { visited = n ∷ t.visited; stack = t.stack }))

-- `KeyError`; `no_fuel` is the model's own.
pub data SortError : Type 0 where
  no_fuel : SortError
  key_error : String → SortError

abbrev pub looked_up : TaskGraph → Option Sorted → Result SortError (List TaskNode)
looked_up g none = err no_fuel
looked_up g (some t) = elim (nodes_at (node_map node_id [] g.nodes) t.stack) [
  | err k ↦ err (key_error k)
  | ok nodes ↦ ok nodes
]

unfoldable pub topological_sort : TaskGraph → Result SortError (List TaskNode)
topological_sort g = looked_up g (
    visit_all (dfs g.maps.children (length (ids node_id g.nodes)))
      (sorted_down (ids node_id g.nodes)) (record { visited = []; stack = [] }))
