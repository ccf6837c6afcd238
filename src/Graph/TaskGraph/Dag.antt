-- ===== src/Graph/TaskGraph/Dag.antt =====
-- What `TaskGraph.__init__` establishes, and why it raises `CycleError`.
use text.Mathlib.Text.{◌==◌ as str_eq}
use text.Mathlib.TextEquality.{eq_iff}
use eag.Prelude.{
  ◌≡◌, ◌≢◌, refl, sym, ap, ◌∙◌, Bool, true, false, not, ◌&&◌, ◌||◌, Option, none, some, List, [],
  ◌∷◌, String, Result, ok, err, ◌>>◌, arith, length, any, all, ok-injective, ◌==◌, ==_iff,
}
use eag.Prelude.Keys.{elem}
use eag.Graph.Links.{
  node_map, has_key-node_map, ids, Maps, no_links, link, children-link, parents-link, unique,
  node_map-unique,
}
use eag.Graph.Search.{check_cycles}
use eag.Graph.Search.Paths.{Edge, Cycle}
use eag.Graph.Search.Verdict.{Answers, Orders, Orders-acyclic, check_cycles_lem}
use eag.Graph.TaskGraph.{
  TaskNode, TaskEdge, TaskGraph, GraphError, duplicate_node, cycle, no_fuel, node_id, doubles,
  add_edges, raise_cycle, construct,
}

-- There is an edge object with these ends.
abbrev pub joins : String → String → List TaskEdge → Bool
joins x y edges = any (λ e. str_eq e.source x && str_eq e.target y) edges

-- What the loop over the edges establishes, if it raises nothing.
record Linked (nodes : List TaskNode) (all_edges edges : List TaskEdge) (m m' : Maps) : Type 0 where
  children : (x y : String) → elem y (m'.children x) ≡ (elem y (m.children x) || joins x y edges)
  parents : (x y : String) → elem x (m'.parents y) ≡ (elem x (m.parents y) || joins x y edges)
  sources : (x y : String) → joins x y edges ≡ true → elem x (ids node_id nodes) ≡ true
  targets : (x y : String) → joins x y edges ≡ true → elem y (ids node_id nodes) ≡ true
  singles : all (λ e. not (any (doubles e) all_edges)) edges ≡ true

-- The tests that one round has passed.
record Passed (nodes : List TaskNode) (all_edges : List TaskEdge) (e : TaskEdge) : Type 0 where
  source : elem e.source (ids node_id nodes) ≡ true
  target : elem e.target (ids node_id nodes) ≡ true
  single : any (doubles e) all_edges ≡ false

module _ (nodes : List TaskNode) (all_edges : List TaskEdge) where
  add_edges-cons :
      (e : TaskEdge) (es : List TaskEdge) (m m' : Maps)
      → add_edges (node_map node_id [] nodes) all_edges (e ∷ es) m ≡ ok m'
      → Passed nodes all_edges e
        × (add_edges (node_map node_id [] nodes) all_edges es (link e.source e.target m) ≡ ok m')
  unfolding add_edges
  add_edges-cons e es m m' h = (
    record {
      source = ground (arith, has_key-node_map node_id e.source nodes);
      target = ground (arith, has_key-node_map node_id e.target nodes);
      single = ground arith;
    },
    ground arith,
  )

  add_edges-Linked :
      (edges : List TaskEdge) (m m' : Maps)
      → add_edges (node_map node_id [] nodes) all_edges edges m ≡ ok m'
      → Linked nodes all_edges edges m m'
  unfolding add_edges
  add_edges-Linked [] m m' h =
      let same = ok-injective h in
      record {
        children = λ x y. ground (arith, ap (λ k. elem y (k.children x)) same);
        parents = λ x y. ground (arith, ap (λ k. elem x (k.parents y)) same);
        sources = λ x y e. cc;
        targets = λ x y e. cc;
        singles = refl;
      }
  add_edges-Linked (e ∷ es) m m' h =
      let (passed, rest) = add_edges-cons e es m m' h in
      let ih = add_edges-Linked es (link e.source e.target m) m' rest in
      record {
        children = λ x y. ground (arith, ih.children x y, children-link e.source e.target m x y);
        parents = λ x y. ground (arith, ih.parents x y, parents-link e.source e.target m x y);
        sources = λ x y j. ground (arith, ih.sources x y, passed.source, eq_iff e.source x);
        targets = λ x y j. ground (arith, ih.targets x y, passed.target, eq_iff e.target y);
        singles = ground (arith, ih.singles, passed.single);
      }

-- A graph that was constructed. The maps hold exactly the given edges, the edges have known ends
-- and no doubles, and the nodes have an order in which each stands before its children.
pub record IsDag (nodes : List TaskNode) (edges : List TaskEdge) (g : TaskGraph) : Type 0 where
  pub nodes_kept : g.nodes ≡ nodes
  pub edges_kept : g.edges ≡ edges
  pub once : unique (ids node_id nodes) ≡ true
  pub children_exact : (x y : String) → elem y (g.maps.children x) ≡ joins x y edges
  pub parents_exact : (x y : String) → elem x (g.maps.parents y) ≡ joins x y edges
  pub sources : (x y : String) → joins x y edges ≡ true → elem x (ids node_id nodes) ≡ true
  pub targets : (x y : String) → joins x y edges ≡ true → elem y (ids node_id nodes) ≡ true
  pub singles : all (λ e. not (any (doubles e) edges)) edges ≡ true
  pub orders : Orders g.maps.children (ids node_id nodes)

-- What the outcome of the constructor says of the given nodes and edges.
abbrev pub Constructed : List TaskNode → List TaskEdge → Result GraphError TaskGraph → Type 0
Constructed nodes edges (ok g) = IsDag nodes edges g × ¬ Cycle g.maps.children
Constructed nodes edges (err duplicate_node) = Unit
Constructed nodes edges (err cycle) =
    (m : Maps) × ((x y : String) → elem y (m.children x) ≡ joins x y edges) × Cycle m.children
Constructed nodes edges (err no_fuel) = ⊥
Constructed nodes edges (err _) = Unit

module _ (nodes : List TaskNode) (edges : List TaskEdge) where
  -- The loop over the edges raises nothing about cycles.
  add_edges-ne :
      (es : List TaskEdge) (m : Maps)
      → (add_edges (node_map node_id [] nodes) edges es m ≢ err cycle)
        × (add_edges (node_map node_id [] nodes) edges es m ≢ err no_fuel)
  unfolding add_edges
  add_edges-ne [] m = (λ e. cc, λ e. cc)
  add_edges-ne (e ∷ es) m =
      let ih = add_edges-ne es (link e.source e.target m) in
      (λ h. ground (arith, ih.0), λ h. ground (arith, ih.1))

  edge_error :
      (e : GraphError)
      → add_edges (node_map node_id [] nodes) edges edges no_links ≡ err e
      → Constructed nodes edges (err e)
  edge_error cycle h = absurd ((add_edges-ne edges no_links).0 h)
  edge_error no_fuel h = absurd ((add_edges-ne edges no_links).1 h)
  edge_error duplicate_node h = tt
  edge_error _ h = tt

  module _ (m : Maps) (linked : Linked nodes edges edges no_links m)
      (once : unique (ids node_id nodes) ≡ true) where
    closed : (x y : String) → Edge m.children x y → elem y (ids node_id nodes) ≡ true
    closed x y e = linked.targets x y (sym (linked.children x y) ∙ e)

    known : (x y : String) → Edge m.children x y → elem x (ids node_id nodes) ≡ true
    known x y e = linked.sources x y (sym (linked.children x y) ∙ e)

    abbrev finish : Option Bool → Result GraphError TaskGraph
    finish r = do raise_cycle r; ok (record { nodes = nodes; edges = edges; maps = m })

    finished :
        (r : Option Bool)
        → Answers m.children (ids node_id nodes) closed r
        → Constructed nodes edges (finish r)
    finished none e = e
    finished (some true) e = (m, linked.children, e)
    finished (some false) e = (
      record {
        nodes_kept = refl;
        edges_kept = refl;
        once = once;
        children_exact = linked.children;
        parents_exact = linked.parents;
        sources = linked.sources;
        targets = linked.targets;
        singles = linked.singles;
        orders = e;
      },
      Orders-acyclic known e,
    )

  constructed :
      (unique_test : Bool) (linked : Result GraphError Maps)
      → (length (node_map node_id [] nodes) == length nodes) ≡ unique_test
      → add_edges (node_map node_id [] nodes) edges edges no_links ≡ linked
      → Constructed nodes edges (construct nodes edges)
  unfolding construct
  constructed false linked u h = rw u tt
  constructed true (err e) u h = rw (u, h) (edge_error e h)
  constructed true (ok m) u h =
      let l = add_edges-Linked nodes edges edges no_links m h in
      let once = node_map-unique node_id nodes ((==_iff _ _).0 u) in
      rw (u, h)
        (finished m l once (check_cycles m.children (ids node_id nodes))
          (check_cycles_lem m.children (ids node_id nodes) (closed m l once)))

  -- The constructor always ends. A graph that it makes has distinct nodes, edges with known ends
  -- and no doubles, maps that hold exactly the edges, an order of its nodes, and no cycle; where it
  -- raises `CycleError`, the edges have a cycle.
  pub construct_exact : Constructed nodes edges (construct nodes edges)
  construct_exact = constructed _ _ refl refl
