-- ===== src/Graph/TaskGraph/Ready.antt =====
-- `ready` selects exactly the tasks that may start, and is never stuck on a constructed graph.
use text.Mathlib.Text.{◌==◌ as str_eq}
use text.Mathlib.TextEquality.{eq_iff}
use eag.Prelude.{
  ok, ◌≡◌, ◌≢◌, refl, sym, ap, ◌∙◌, Bool, true, false, ◌&&◌, List, [], ◌∷◌, String, arith,
  Bool-cases, inl, inr, any, keep, any-keep,
}
use mathlib.Core.Path.{subst}
use eag.Prelude.Keys.{elem}
use eag.Prelude.Sorting.{any-sort_by}
use eag.Graph.Links.{ids}
use eag.Graph.Starts.{may_start, starter}
use eag.Graph.TaskGraph.{
  construct, TaskNode, TaskEdge, TaskGraph, node_id, is_ready, ready, sorts_before,
}
use eag.Graph.TaskGraph.Dag.{IsDag, Constructed, construct_exact}

-- A test on a node's identifier.
abbrev named : String → TaskNode → Bool
named k n = str_eq n.id k

any-named : (k : String) (nodes : List TaskNode) → any (named k) nodes ≡ elem k (ids node_id nodes)
any-named k [] = refl
any-named k (n ∷ nodes) = ground (arith, any-named k nodes)

any-named_ready :
    (g : TaskGraph) (completed : List String) (k : String) (nodes : List TaskNode)
    → any (λ n. is_ready g completed n && named k n) nodes
      ≡ (elem k (ids node_id nodes) && may_start g.maps completed k)
any-named_ready g completed k [] = refl
any-named_ready g completed k (n ∷ nodes) = elim (Bool-cases (str_eq n.id k)) [
  | inl same ↦
      let e : n.id ≡ k = (eq_iff n.id k).0 same in
      ground (arith, any-named_ready g completed k nodes, ap (may_start g.maps completed) e, same)
  | inr other ↦ ground (arith, any-named_ready g completed k nodes)
]

-- The ready tasks are exactly the graph's tasks that are not completed and whose parents are.
pub ready_exact :
    (g : TaskGraph) (completed : List String) (k : String)
    → elem k (ids node_id (ready g completed))
      ≡ (elem k (ids node_id g.nodes) && may_start g.maps completed k)
unfolding ready
ready_exact g completed k =
    sym (any-named k (ready g completed))
    ∙ any-sort_by sorts_before (named k) (keep (is_ready g completed) g.nodes)
    ∙ any-keep (is_ready g completed) (named k) g.nodes
    ∙ any-named_ready g completed k g.nodes

-- While a task of a constructed graph is not completed, some task is ready.
pub ready-progress :
    (nodes : List TaskNode) (edges : List TaskEdge) (g : TaskGraph) (completed : List String)
    (k : String)
    → construct nodes edges ≡ ok g
    → elem k (ids node_id nodes) ≡ true
    → elem k completed ≡ false
    → ready g completed ≢ []
ready-progress nodes edges g completed k made listed open_k none_ready =
    let dag : IsDag nodes edges g =
      (subst (Constructed nodes edges) made (construct_exact nodes edges)).0 in
    let order = dag.orders in
    let s =
      starter g.maps completed (λ x y. dag.parents_exact x y ∙ sym (dag.children_exact x y))
        order.order k order.ordered
        (λ x y e hy hx. order.covers x ∙ dag.sources x y (sym (dag.children_exact x y) ∙ e))
        (order.covers k ∙ listed) open_k in
    ground (
      arith,
      ready_exact g completed s.key,
      s.starts,
      s.listed,
      order.covers s.key,
      dag.nodes_kept,
      none_ready,
      ap (λ l. elem s.key (ids node_id l)) none_ready,
      ap (λ l. elem s.key (ids node_id l)) dag.nodes_kept,
    )
