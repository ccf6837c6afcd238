-- ===== src/Execution/Graph.antt =====
-- src/eag/execution_graph/graph.py and models.py. A node keeps the fields that the graph and the
-- executor read. The cycle search is the same code as the task graph's.
pub mod Dag
use text.Mathlib.Text.{◌==◌ as str_eq}
use eag.Prelude.{
  ℕ, Bool, true, false, not, ◌&&◌, Option, none, some, List, [], ◌∷◌, ◌++◌, String, Result, ok, err,
  ◌>>=◌, ◌>>◌, guard, length, all, ◌==◌, if◌then◌else◌, keep, is_empty,
}
use eag.Prelude.Keys.{elem}
use eag.Prelude.Sorting.{sort_by}
use eag.Graph.Links.{node_map, has_key, ids, Maps, no_links, link}
use eag.Graph.Search.{check_cycles}
use eag.Graph.TaskGraph.{text_le}

pub record ExecutionNode : Type 0 where
  pub id : String
  pub task_id : String
  pub title : String

pub record ExecutionEdge : Type 0 where
  pub source : String
  pub target : String

-- The exceptions of errors.py and of the models; `no_fuel` is the model's own.
pub data GraphError : Type 0 where
  duplicate_node cycle no_fuel same_ends : GraphError
  missing_node : String → GraphError

pub record ExecutionGraph : Type 0 where
  pub nodes : List ExecutionNode
  pub edges : List ExecutionEdge
  pub maps : Maps

abbrev pub node_id : ExecutionNode → String
node_id n = n.id

-- `ExecutionEdge.__post_init__`
unfoldable pub make_edge : ExecutionEdge → Result GraphError ExecutionEdge
make_edge e = do guard (not (str_eq e.source e.target)) same_ends; ok e

-- The loop over the edges.
unfoldable pub add_edges :
    List (String × ExecutionNode) → List ExecutionEdge → Maps → Result GraphError Maps
add_edges known [] m = ok m
add_edges known (e ∷ es) m = do
  guard (has_key e.source known) (missing_node e.source)
  guard (has_key e.target known) (missing_node e.target)
  add_edges known es (link e.source e.target m)

abbrev pub raise_cycle : Option Bool → Result GraphError (Unit {0})
raise_cycle none = err no_fuel
raise_cycle (some true) = err cycle
raise_cycle (some false) = ok tt

-- `ExecutionGraph.__init__`
unfoldable pub construct :
    List ExecutionNode → List ExecutionEdge → Result GraphError ExecutionGraph
construct nodes edges = do
  guard (length (node_map node_id [] nodes) == length nodes) duplicate_node
  m ← add_edges (node_map node_id [] nodes) edges no_links
  raise_cycle (check_cycles m.children (ids node_id nodes))
  ok (record { nodes = nodes; edges = edges; maps = m })

unfoldable pub add_node : ExecutionGraph → ExecutionNode → Result GraphError ExecutionGraph
add_node g n = construct (g.nodes ++ n ∷ []) g.edges

unfoldable pub add_edge : ExecutionGraph → ExecutionEdge → Result GraphError ExecutionGraph
add_edge g e = construct g.nodes (g.edges ++ e ∷ [])

unfoldable pub roots : ExecutionGraph → List ExecutionNode
roots g = keep (λ n. is_empty (g.maps.parents n.id)) g.nodes

unfoldable pub leaves : ExecutionGraph → List ExecutionNode
leaves g = keep (λ n. is_empty (g.maps.children n.id)) g.nodes

abbrev pub is_ready : ExecutionGraph → List String → ExecutionNode → Bool
is_ready g completed n =
    not (elem n.id completed) && all (λ p. elem p completed) (g.maps.parents n.id)

abbrev pub sorts_before : ExecutionNode → ExecutionNode → Bool
sorts_before a b = text_le a.id b.id

unfoldable pub ready : ExecutionGraph → List String → List ExecutionNode
ready g completed = sort_by sorts_before (keep (is_ready g completed) g.nodes)

unfoldable pub is_complete : ExecutionGraph → List String → Bool
is_complete g completed = all (λ n. elem n.id completed) g.nodes
