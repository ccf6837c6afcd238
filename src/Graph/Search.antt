-- ===== src/Graph/Search.antt =====
-- `_check_cycles`, the same code in src/eag/task_graph/graph.py and
-- src/eag/execution_graph/graph.py. The nested function `dfs` takes fuel, which bounds how deep its
-- calls go; `none` means that it ran out.
pub mod Paths
pub mod Finished
pub mod Verdict
use eag.Prelude.{
  length, ℕ, zero, suc, Bool, true, false, Option, none, some, List, [], ◌∷◌, String, if◌then◌else◌,
}
use eag.Prelude.Keys.{elem, remove}

-- The sets `visited` and `recursion_stack`.
pub record Search : Type 0 where
  pub visited : List String
  pub stack : List String

-- The `for` loop of `dfs` over the children; `call` is the recursive call.
unfoldable pub visit_children :
    (String → Search → Option (Bool × Search)) → List String → Search → Option (Bool × Search)
visit_children call [] s = some (false, s)
visit_children call (c ∷ cs) s = elim (elem c s.visited) [
  | false ↦ elim (call c s) [
    | none ↦ none
    | some (true, s') ↦ some (true, s')
    | some (false, s') ↦ visit_children call cs s'
  ]
  | true ↦ elim (elem c s.stack) [ true ↦ some (true, s) | false ↦ visit_children call cs s ]
]

-- `recursion_stack.remove(node_id)` behind a loop that found no cycle.
abbrev pub leave : String → Option (Bool × Search) → Option (Bool × Search)
leave n none = none
leave n (some (true, s)) = some (true, s)
leave n (some (false, s)) = some (false, record s { stack = remove n s.stack })

unfoldable pub dfs : (String → List String) → ℕ → String → Search → Option (Bool × Search)
dfs children zero n s = none
dfs children (suc fuel) n s = leave n (
    visit_children (dfs children fuel) (children n)
      (record { visited = n ∷ s.visited; stack = n ∷ s.stack }))

-- The loop over the nodes: whether it raises `CycleError`.
unfoldable pub search_from : (String → List String) → ℕ → List String → Search → Option Bool
search_from children fuel [] s = some false
search_from children fuel (n ∷ nodes) s = elim (elem n s.visited) [
  | true ↦ search_from children fuel nodes s
  | false ↦ elim (dfs children fuel n s) [
    | none ↦ none
    | some (true, s') ↦ some true
    | some (false, s') ↦ search_from children fuel nodes s'
  ]
]

-- `_check_cycles`: a call of `dfs` is made for unvisited nodes only, so the number of nodes is fuel
-- enough.
unfoldable pub check_cycles : (String → List String) → List String → Option Bool
check_cycles children nodes =
    search_from children (length nodes) nodes (record { visited = []; stack = [] })
