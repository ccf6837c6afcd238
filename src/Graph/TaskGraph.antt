-- ===== src/Graph/TaskGraph.antt =====
-- src/eag/task_graph: the validated graph of tasks. A node keeps the fields that the graph reads
-- or hands on; `estimated_duration`, `dependencies` and `metadata` are left out. An edge carries
-- the identity of its object, which the search for duplicates compares.
pub mod Dag
pub mod Ready
pub mod Topological
use Prim.Native.String.{compare}
use Prim.Native.Nat.{Ordering}
use text.Mathlib.Text.{◌==◌ as str_eq}
use eag.Prelude.{
  is_empty, keep, ℕ, ◌≡◌, Bool, true, false, not, ◌&&◌, ◌||◌, Option, none, some, List, [], ◌∷◌,
  ◌++◌, String, Result, ok, err, ◌>>=◌, ◌>>◌, guard, length, any, all, ◌==◌, if◌then◌else◌, leb,
  ltb,
}
use eag.Prelude.Keys.{elem}
use eag.Prelude.Sorting.{sort_by}
use eag.Graph.Links.{node_map, has_key, ids, Maps, no_links, link}
use eag.Graph.Search.{check_cycles}

-- `TaskPriority`
pub data TaskPriority : Type 0 where
  low normal high critical : TaskPriority

-- `DependencyType`
pub data DependencyType : Type 0 where
  finish_to_start start_to_start optional : DependencyType

pub record TaskNode : Type 0 where
  pub id : String
  pub title : String
  pub required_capability : String
  pub priority : TaskPriority

pub record TaskEdge : Type 0 where
  pub object : ℕ
  pub source : String
  pub target : String
  pub dependency_type : DependencyType

-- The exceptions of errors.py; `no_fuel` is the model's own.
pub data GraphError : Type 0 where
  duplicate_node cycle no_fuel : GraphError
  missing_node self_dependency : String → GraphError
  duplicate_edge : String → String → GraphError

pub record TaskGraph : Type 0 where
  pub nodes : List TaskNode
  pub edges : List TaskEdge
  pub maps : Maps

abbrev pub node_id : TaskNode → String
node_id n = n.id

-- Another edge object with the same ends.
abbrev pub doubles : TaskEdge → TaskEdge → Bool
doubles edge e =
    not (e.object == edge.object) && (str_eq e.source edge.source && str_eq e.target edge.target)

-- The loop over the edges.
unfoldable pub add_edges :
    List (String × TaskNode) → List TaskEdge → List TaskEdge → Maps → Result GraphError Maps
add_edges known edges [] m = ok m
add_edges known edges (e ∷ es) m = do
  guard (has_key e.source known) (missing_node e.source)
  guard (has_key e.target known) (missing_node e.target)
  guard (not (str_eq e.source e.target)) (self_dependency e.source)
  guard (not (any (doubles e) edges)) (duplicate_edge e.source e.target)
  add_edges known edges es (link e.source e.target m)

abbrev pub raise_cycle : Option Bool → Result GraphError (Unit {0})
raise_cycle none = err no_fuel
raise_cycle (some true) = err cycle
raise_cycle (some false) = ok tt

-- `TaskGraph.__init__`
unfoldable pub construct : List TaskNode → List TaskEdge → Result GraphError TaskGraph
construct nodes edges = do
  guard (length (node_map node_id [] nodes) == length nodes) duplicate_node
  m ← add_edges (node_map node_id [] nodes) edges edges no_links
  raise_cycle (check_cycles m.children (ids node_id nodes))
  ok (record { nodes = nodes; edges = edges; maps = m })

unfoldable pub add_node : TaskGraph → TaskNode → Result GraphError TaskGraph
add_node g n = construct (g.nodes ++ n ∷ []) g.edges

unfoldable pub add_edge : TaskGraph → TaskEdge → Result GraphError TaskGraph
add_edge g e = construct g.nodes (g.edges ++ e ∷ [])

unfoldable pub roots : TaskGraph → List TaskNode
roots g = keep (λ n. is_empty (g.maps.parents n.id)) g.nodes

unfoldable pub leaves : TaskGraph → List TaskNode
leaves g = keep (λ n. is_empty (g.maps.children n.id)) g.nodes

unfoldable pub priority_order : TaskPriority → ℕ
priority_order critical = 0
priority_order high = 1
priority_order normal = 2
priority_order low = 3

unfoldable pub text_le : String → String → Bool
text_le s t = elim (compare s t) [ Ordering.gt ↦ false | _ ↦ true ]

-- The order of the keys `(priority_order, id)`.
unfoldable pub sorts_before : TaskNode → TaskNode → Bool
unfolding priority_order text_le
sorts_before a b =
    ltb (priority_order a.priority) (priority_order b.priority)
    || (priority_order a.priority == priority_order b.priority && text_le a.id b.id)

abbrev pub is_ready : TaskGraph → List String → TaskNode → Bool
is_ready g completed n =
    not (elem n.id completed) && all (λ p. elem p completed) (g.maps.parents n.id)

unfoldable pub ready : TaskGraph → List String → List TaskNode
ready g completed = sort_by sorts_before (keep (is_ready g completed) g.nodes)

-- `_node_map[key]`
abbrev pub node_at : String → List (String × TaskNode) → Option TaskNode
node_at k [] = none
node_at k ((j, n) ∷ d) = if str_eq j k then some n else node_at k d

-- The nodes of some keys, or the first key that is missing (`KeyError`).
unfoldable pub nodes_at : List (String × TaskNode) → List String → Result String (List TaskNode)
nodes_at d [] = ok []
nodes_at d (k ∷ ks) = elim (node_at k d) [
  | none ↦ err k
  | some n ↦ nodes_at d ks >>= λ rest. ok (n ∷ rest)
]

unfoldable pub parents : TaskGraph → String → Result String (List TaskNode)
parents g k = nodes_at (node_map node_id [] g.nodes) (g.maps.parents k)

unfoldable pub children : TaskGraph → String → Result String (List TaskNode)
children g k = nodes_at (node_map node_id [] g.nodes) (g.maps.children k)
