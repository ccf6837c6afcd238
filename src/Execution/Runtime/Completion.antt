-- ===== src/Execution/Runtime/Completion.antt =====
-- A runtime that does not stop at failures settles every node.
use text.Mathlib.Text.{◌==◌ as str_eq}
use text.Mathlib.TextEquality.{eq_iff}
use mathlib.Core.Path.{subst}
use eag.Prelude.{
  ℕ, zero, suc, ◌≡◌, refl, sym, ap, ◌∙◌, true, false, ◌&&◌, List, [], ◌∷◌, String, Result, ok, err,
  all, any, any-keep, keep, length, arith, Bool-cases, inl, inr,
}
use eag.Prelude.Keys.{elem}
use eag.Prelude.Sorting.{any-sort_by}
use eag.Graph.Links.{ids}
use eag.Graph.Starts.{may_start, starter}
use eag.Workers.Registry.{WorkerError}
use eag.Workers.Runtime.{Runtime}
use eag.Execution.Graph.{
  ExecutionNode, ExecutionEdge, ExecutionGraph, construct, ready, is_ready, is_complete, node_id,
  sorts_before,
}
use eag.Execution.Graph.Dag.{IsDag, Constructed, graph_exact}
use eag.Execution.Batch.{FailurePolicy, Work, stops, BatchResult, execute_batch}
use eag.Execution.Runtime.{
  Progress, settled, Outcome, finished, update, after_batch, round, loop, execute,
}
use eag.Execution.Runtime.Termination.{any-named}

any-named_ready :
    (g : ExecutionGraph) (completed : List String) (k : String) (nodes : List ExecutionNode)
    → any (λ n. is_ready g completed n && str_eq n.id k) nodes
      ≡ (elem k (ids node_id nodes) && may_start g.maps completed k)
any-named_ready g completed k [] = refl
any-named_ready g completed k (n ∷ nodes) = elim (Bool-cases (str_eq n.id k)) [
  | inl same ↦
      let e : n.id ≡ k = (eq_iff n.id k).0 same in
      ground (arith, any-named_ready g completed k nodes, ap (may_start g.maps completed) e, same)
  | inr other ↦ ground (arith, any-named_ready g completed k nodes)
]

-- The ready nodes are exactly the graph's that are not completed and whose parents all are.
pub ready_nodes :
    (g : ExecutionGraph) (completed : List String) (k : String)
    → elem k (ids node_id (ready g completed))
      ≡ (elem k (ids node_id g.nodes) && may_start g.maps completed k)
unfolding ready
ready_nodes g completed k =
    sym (any-named k (ready g completed))
    ∙ any-sort_by sorts_before (λ n. str_eq n.id k) (keep (is_ready g completed) g.nodes)
    ∙ any-keep (is_ready g completed) (λ n. str_eq n.id k) g.nodes
    ∙ any-named_ready g completed k g.nodes

open_node :
    (c : List String) (l : List ExecutionNode)
    → all (λ n. elem n.id c) l ≡ false
    → (k : String) × (elem k (ids node_id l) ≡ true) × (elem k c ≡ false)
open_node c [] h = cc
open_node c (n ∷ l) h = elim (Bool-cases (elem n.id c)) [
  | inl done ↦
      let (k, listed, open_k) = open_node c l (ground (arith, h, done)) in
      (k, ground (arith, listed), open_k)
  | inr todo ↦ (n.id, ground (arith, (eq_iff n.id n.id).1 refl), todo)
]

complete-elem :
    (c : List String) (l : List ExecutionNode) (k : String)
    → all (λ n. elem n.id c) l ≡ true
    → elem k (ids node_id l) ≡ true
    → elem k c ≡ true
complete-elem c [] k h listed = cc
complete-elem c (n ∷ l) k h listed = elim (Bool-cases (str_eq n.id k)) [
  | inl same ↦ ap (λ j. elem j c) (sym ((eq_iff n.id k).0 same)) ∙ ground (arith, h)
  | inr other ↦ complete-elem c l k (ground (arith, h)) (ground (arith, listed, other))
]

finished-progress : {p q : Progress} {r r' : Runtime} → finished p r ≡ finished q r' → p ≡ q
finished-progress e = cc

module _ (nodes : List ExecutionNode) (edges : List ExecutionEdge) (g : ExecutionGraph)
    (made : construct nodes edges ≡ ok g) where
  dag : IsDag nodes edges g
  dag = (subst (Constructed nodes edges) made (graph_exact nodes edges)).0

  -- Where no node is ready, all are completed.
  done-is_complete : (c : List String) → ready g c ≡ [] → is_complete g c ≡ true
  unfolding is_complete
  done-is_complete c none_ready = elim (Bool-cases (all (λ n. elem n.id c) g.nodes)) [
    | inl done ↦ done
    | inr todo ↦
        let (k, listed, open_k) = open_node c g.nodes todo in
        let order = dag.orders in
        let here : elem k (ids node_id nodes) ≡ true =
          ap (λ l. elem k (ids node_id l)) (sym dag.nodes_kept) ∙ listed in
        let s =
          starter g.maps c (λ x y. dag.parents_exact x y ∙ sym (dag.children_exact x y)) order.order
            k order.ordered
            (λ x y e hy hx. order.covers x ∙ dag.sources x y (sym (dag.children_exact x y) ∙ e))
            (order.covers k ∙ here) open_k in
        let known : elem s.key (ids node_id g.nodes) ≡ true =
          ap (λ l. elem s.key (ids node_id l)) dag.nodes_kept
          ∙ sym (order.covers s.key)
          ∙ s.listed in
        let is_there : elem s.key (ids node_id (ready g c)) ≡ true =
          ready_nodes g c s.key ∙ ground (arith, known, s.starts) in
        absurd (cc (ap (λ l. elem s.key (ids node_id l)) none_ready, is_there))
  ]

  module _ (policy : FailurePolicy) (work : Work) (goes_on : stops policy ≡ false) where
    abbrev Completes : (Progress → Runtime → Outcome) → Type 0
    Completes again =
        (p : Progress) (r : Runtime) (q : Progress) (r' : Runtime)
        → again p r ≡ finished q r'
        → is_complete g (settled q) ≡ true

    after_batch_complete :
        (again : Progress → Runtime → Outcome)
        → Completes again
        → (p : Progress) (ran : Result WorkerError (BatchResult × Runtime)) (q : Progress)
          (r' : Runtime)
        → after_batch policy work g again p ran ≡ finished q r'
        → is_complete g (settled q) ≡ true
    after_batch_complete again h p (err e) q r' t = cc
    after_batch_complete again h p (ok (b, r)) q r' t =
        h (update p b) r q r' (ground (arith, t, goes_on))

    round_complete :
        (again : Progress → Runtime → Outcome)
        → Completes again
        → (p : Progress) (r : Runtime) (l : List ExecutionNode) (q : Progress) (r' : Runtime)
        → ready g (settled p) ≡ l
        → round policy work g again p r l ≡ finished q r'
        → is_complete g (settled q) ≡ true
    round_complete again h p r [] q r' e t =
        ap (λ x. is_complete g (settled x)) (finished-progress (sym t))
        ∙ done-is_complete (settled p) e
    round_complete again h p r (n ∷ ns) q r' e t =
        after_batch_complete again h p (execute_batch policy work (n ∷ ns) r) q r' t

    loop_complete : (fuel : ℕ) → Completes (loop policy work g fuel)
    unfolding loop
    loop_complete zero p r q r' t = cc
    loop_complete (suc fuel) p r q r' t = elim (Bool-cases (is_complete g (settled p))) [
      | inl done ↦
          let same : finished p r ≡ finished q r' = ground (arith, t, done) in
          ap (λ x. is_complete g (settled x)) (finished-progress (sym same)) ∙ done
      | inr more ↦
          round_complete (loop policy work g fuel) (loop_complete fuel) p r (ready g (settled p)) q
            r' refl (ground (arith, t, more))
    ]

    -- Under a policy that does not stop at failures, an execution of a constructed graph that
    -- finishes has put every node into the completed or the failed ones, whatever the workers did.
    pub execute-settled :
        (r : Runtime) (q : Progress) (r' : Runtime) (k : String)
        → execute policy work g r ≡ finished q r'
        → elem k (ids node_id nodes) ≡ true
        → elem k (settled q) ≡ true
    unfolding execute is_complete
    execute-settled r q r' k t listed =
        complete-elem (settled q) g.nodes k
          (loop_complete (suc (length g.nodes)) (record { completed = []; failed = [] }) r q r' t)
          (ap (λ l. elem k (ids node_id l)) dag.nodes_kept ∙ listed)
