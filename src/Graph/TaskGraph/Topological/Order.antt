-- ===== src/Graph/TaskGraph/Topological/Order.antt =====
-- The result of `topological_sort` on a graph that was constructed.
use text.Mathlib.Text.{◌==◌ as str_eq}
use text.Mathlib.TextEquality.{eq_iff}
use text.Mathlib.TextPositions.{eq_refl}
use eag.Prelude.{
  ◌≡◌, refl, sym, ap, ◌∙◌, Bool, true, ◌&&◌, Option, none, some, List, [], ◌∷◌, String, Result, ok,
  arith, Bool-cases, inl, inr, length, all,
}
use eag.Prelude.Keys.{elem}
use eag.Graph.Links.{node_map, put, ids, has_key, has_key-node_map}
use eag.Graph.Search.Paths.{Edge, Cycle, IsOrdered}
use eag.Graph.Search.Verdict.{Orders-acyclic, unseen-nil}
use eag.Graph.TaskGraph.{TaskNode, TaskEdge, TaskGraph, node_id, node_at, nodes_at}
use eag.Graph.TaskGraph.Dag.{IsDag}
use eag.Graph.TaskGraph.Topological.{Sorted, SortError, sorted_down, looked_up, topological_sort}
use eag.Graph.TaskGraph.Topological.Visits.{Outcome, visit_all_lem, dfs_lem, elem-sorted_down}

module _ (p : TaskNode → Bool) where
  -- Each node stands under its identifier and passes a test.
  abbrev passes : List (String × TaskNode) → Bool
  passes d = all (λ e. str_eq e.0 e.1.id && p e.1) d

  passes-put :
      (n : TaskNode) (d : List (String × TaskNode))
      → p n ≡ true
      → passes d ≡ true
      → passes (put node_id n d) ≡ true
  unfolding put
  passes-put n [] h v = ground (arith, h, eq_refl n.id)
  passes-put n ((k, m) ∷ d) h v = ground (arith, h, v, passes-put n d h)

  passes-node_map :
      (d : List (String × TaskNode)) (nodes : List TaskNode)
      → all p nodes ≡ true
      → passes d ≡ true
      → passes (node_map node_id d nodes) ≡ true
  unfolding node_map
  passes-node_map d [] h v = v
  passes-node_map d (n ∷ nodes) h v =
      passes-node_map (put node_id n d) nodes (ground (arith, h))
        (passes-put n d (ground (arith, h)) v)

  node_at_found :
      (k : String) (d : List (String × TaskNode))
      → passes d ≡ true
      → has_key k d ≡ true
      → (n : TaskNode) × (node_at k d ≡ some n) × (n.id ≡ k) × (p n ≡ true)
  node_at_found k [] v h = cc
  node_at_found k ((j, m) ∷ d) v h = elim (Bool-cases (str_eq j k)) [
    | inl same ↦
        let named : str_eq j m.id ≡ true = ground (arith, v) in
        (m, rw same refl, sym ((eq_iff j m.id).0 named) ∙ (eq_iff j k).0 same, ground (arith, v))
    | inr other ↦
        let (n, e, named, passed) = node_at_found k d (ground (arith, v)) (ground (arith, h)) in
        (n, rw other e, named, passed)
  ]

  nodes_at_found :
      (ks : List String) (d : List (String × TaskNode))
      → passes d ≡ true
      → ((k : String) → elem k ks ≡ true → has_key k d ≡ true)
      → (l : List TaskNode) × (nodes_at d ks ≡ ok l) × (ids node_id l ≡ ks) × (all p l ≡ true)
  unfolding nodes_at
  nodes_at_found [] d v h = ([], refl, refl, refl)
  nodes_at_found (k ∷ ks) d v h =
      let (n, e, named, passed) = node_at_found k d v (h k (ground (arith, eq_refl k))) in
      let (l, rest, same, all_passed) = nodes_at_found ks d v (λ j g. h j (ground (arith, g))) in
      (
        n ∷ l,
        rw (e, nodes_at, rest) refl,
        ap (λ x. x ∷ ids node_id l) named ∙ ap (λ x. k ∷ x) same,
        ground (arith, passed, all_passed),
      )

-- A sort that succeeds: its nodes pass a test, each stands before its children, none twice, and
-- their identifiers are exactly the graph's.
pub record IsTopological (g : TaskGraph) (p : TaskNode → Bool)
    (result : Result SortError (List TaskNode)) : Type 0 where
  pub sorted : List TaskNode
  pub answered : result ≡ ok sorted
  pub ordered : IsOrdered g.maps.children (ids node_id sorted)
  pub covers : (x : String) → elem x (ids node_id sorted) ≡ elem x (ids node_id g.nodes)
  pub passed : all p sorted ≡ true

module _ (g : TaskGraph)
    (closed : (x y : String) → Edge g.maps.children x y → elem y (ids node_id g.nodes) ≡ true)
    (acyclic : ¬ Cycle g.maps.children) (p : TaskNode → Bool) (h : all p g.nodes ≡ true) where
  abbrev nothing : Sorted
  nothing = record { visited = []; stack = [] }

  looked_up-IsTopological :
      (r : Option Sorted)
      → Outcome g.maps.children
          (ids node_id g.nodes)
          closed
          acyclic
          nothing
          []
          (sorted_down (ids node_id g.nodes))
          r
      → IsTopological g p (looked_up g r)
  looked_up-IsTopological none e = absurd e
  looked_up-IsTopological (some t) d =
      let known : (k : String) → elem k t.stack ≡ true → elem k (ids node_id g.nodes) ≡ true =
        λ k e. ground (arith, e, d.splits.split k, d.known k) in
      let (l, e, same, passed) =
        nodes_at_found p t.stack (node_map node_id [] g.nodes) (passes-node_map p [] g.nodes h refl)
          (λ k e. has_key-node_map node_id k g.nodes ∙ known k e) in
      record {
        sorted = l;
        answered = rw (e, looked_up) refl;
        ordered = rw same d.splits.ordered;
        covers = λ x.
            ap (elem x) same
            ∙ ground (arith, known x, d.reached x, elem-sorted_down x (ids node_id g.nodes));
        passed = passed;
      }

  acyclic_sort : IsTopological g p (topological_sort g)
  unfolding topological_sort
  acyclic_sort = looked_up-IsTopological _ (
      visit_all_lem g.maps.children (ids node_id g.nodes) closed acyclic
        (length (ids node_id g.nodes)) _
        (dfs_lem g.maps.children (ids node_id g.nodes) closed acyclic
          (length (ids node_id g.nodes)))
        (sorted_down (ids node_id g.nodes)) nothing []
        (λ c e. sym (elem-sorted_down c (ids node_id g.nodes)) ∙ e) (λ c e. tt)
        (unseen-nil (ids node_id g.nodes))
        (record { ordered = tt; split = λ x. refl; apart = λ x e. cc }) tt)

-- The sort of a graph that was constructed ends and raises nothing: it answers nodes that pass
-- every test that the graph's nodes pass, each before its children and none twice, and their
-- identifiers are exactly those of the graph's nodes.
pub topological_sort_lem :
    (nodes : List TaskNode) (edges : List TaskEdge) (g : TaskGraph)
    → IsDag nodes edges g
    → (p : TaskNode → Bool) → all p nodes ≡ true
    → IsTopological g p (topological_sort g)
topological_sort_lem nodes edges g dag p h =
    let targets : (x y : String) → Edge g.maps.children x y → elem y (ids node_id g.nodes) ≡ true =
      λ x y e. rw dag.nodes_kept (dag.targets x y (sym (dag.children_exact x y) ∙ e)) in
    let sources : (x y : String) → Edge g.maps.children x y → elem x (ids node_id nodes) ≡ true =
      λ x y e. dag.sources x y (sym (dag.children_exact x y) ∙ e) in
    acyclic_sort g targets (Orders-acyclic sources dag.orders) p (rw dag.nodes_kept h)
