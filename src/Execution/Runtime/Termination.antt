-- ===== src/Execution/Runtime/Termination.antt =====
-- The rounds of the runtime end.
use text.Mathlib.Text.{◌==◌ as str_eq}
use text.Mathlib.TextEquality.{eq_iff}
use text.Mathlib.TextPositions.{eq_refl}
use eag.Prelude.{
  guard, is_blank, >>-eq-ok, ℕ, zero, suc, ◌<◌, ◌≤◌, ◌≡◌, ◌≢◌, refl, sym, ap, ◌∙◌, Bool, true,
  false, not, ◌&&◌, ◌||◌, Option, none, some, List, [], ◌∷◌, ◌++◌, String, Result, ok, err, ◌>>=◌,
  >>=-eq-ok, ok-injective, is_empty, length, any, any-keep, keep, arith, Bool-cases, inl, inr,
}
use eag.Prelude.Keys.{elem, elem-append, unseen, unseen-le, unseen-lt}
use eag.Prelude.Sorting.{any-sort_by}
use eag.Graph.Links.{ids}
use eag.Workers.Models.{Profile, Report}
use eag.Workers.Manager.{find_best_worker_for_task, assign}
use eag.Workers.Registry.{WorkerError}
use eag.Workers.Runtime.{Runtime, returned}
use eag.Workers.Runtime as Workers
use eag.Execution.Graph.{
  ExecutionNode, ExecutionGraph, ready, is_ready, is_complete, node_id, sorts_before,
}
use eag.Execution.Batch.{
  FailurePolicy, Work, stops, BatchResult, nothing, task_of, add_report, execute_batch, go_on,
  run_found, run_node, Batch,
}
use eag.Execution.Runtime.{
  Progress, settled, Outcome, no_fuel, update, after_batch, round, loop, execute,
}

abbrev pub settles : BatchResult → String → Bool
settles b k = elem k b.completed || elem k b.failed

add_report-settles :
    (k : String) (report : Report) (b : BatchResult) → settles (add_report k report b) k ≡ true
add_report-settles k report b = ground (arith, eq_refl k)

go_on-settles :
    (policy : FailurePolicy) (rest : Batch) (n : ExecutionNode) (report : Report) (r : Runtime)
    (b : BatchResult) (r' : Runtime)
    → go_on policy rest n report r ≡ ok (b, r')
    → settles b n.id ≡ true
unfolding go_on
go_on-settles policy rest n report r b r' e =
    elim (Bool-cases (stops policy && not report.success)) [
      | inl stopped ↦
          let e₀ : Path (Result WorkerError (BatchResult × Runtime))
              (ok (add_report n.id report nothing, r)) (ok (b, r')) =
            ground (arith, e, stopped) in
          ap (λ x. settles x.0 n.id) (sym (ok-injective e₀))
          ∙ add_report-settles n.id report nothing
      | inr more ↦
          let next : BatchResult × Runtime → Result WorkerError (BatchResult × Runtime) =
            λ x. ok (add_report n.id report x.0, x.1) in
          let e₀ : (rest r >>= next) ≡ ok (b, r') = ground (arith, e, more) in
          let (x, ran, e₁) = >>=-eq-ok (rest r) next e₀ in
          ap (λ y. settles y.0 n.id) (sym (ok-injective e₁)) ∙ add_report-settles n.id report x.0
    ]

run_found-settles :
    (policy : FailurePolicy) (work : Work) (rest : Batch) (n : ExecutionNode) (o : Option Profile)
    (r : Runtime) (b : BatchResult) (r' : Runtime)
    → run_found policy work rest n o r ≡ ok (b, r')
    → settles b n.id ≡ true
unfolding run_found
run_found-settles policy work rest n none r b r' e =
    let (x, ran, e₁) = >>=-eq-ok (rest r) _ e in
    ap (λ y. settles y.0 n.id) (sym (ok-injective e₁)) ∙ ground (arith, eq_refl n.id)
run_found-settles policy work rest n (some w) r b r' e =
    let ((done, m), assigned, e₁) = >>=-eq-ok (assign r.manager w.id n.id) _ e in
    let (titled, e₂) = >>-eq-ok (guard (not (is_blank n.title)) _) _ e₁ in
    let ((report, r₁), ran, e₃) =
      >>=-eq-ok (returned (Workers.execute (record r { manager = m }) w (task_of n) _)) _ e₂ in
    go_on-settles policy rest n report r₁ b r' e₃

-- A batch that returns puts its first node in one of its two sets.
execute_batch-settles :
    (policy : FailurePolicy) (work : Work) (n : ExecutionNode) (ns : List ExecutionNode)
    (r : Runtime) (b : BatchResult) (r' : Runtime)
    → execute_batch policy work (n ∷ ns) r ≡ ok (b, r')
    → settles b n.id ≡ true
unfolding execute_batch run_node
execute_batch-settles policy work n ns r b r' e =
    let ((o, m), found, e₁) =
      >>=-eq-ok (find_best_worker_for_task r.health r.manager (inl n.task_id)) _ e in
    run_found-settles policy work (execute_batch policy work ns) n o (record r { manager = m }) b r'
      e₁

any-and :
    (p q : ExecutionNode → Bool) (l : List ExecutionNode)
    → any (λ n. p n && q n) l ≡ true
    → any q l ≡ true
any-and p q [] h = h
any-and p q (n ∷ l) h = ground (arith, h, any-and p q l)

none_settled :
    (g : ExecutionGraph) (c : List String) (l : List ExecutionNode)
    → any (λ n. is_ready g c n && elem n.id c) l ≡ false
none_settled g c [] = refl
none_settled g c (n ∷ l) = ground (arith, none_settled g c l)

pub any-named :
    (k : String) (l : List ExecutionNode) → any (λ n. str_eq n.id k) l ≡ elem k (ids node_id l)
any-named k [] = refl
any-named k (n ∷ l) = ground (arith, any-named k l)

-- A ready node is one of the graph's, and not settled.
ready-head :
    (g : ExecutionGraph) (c : List String) (n : ExecutionNode) (ns : List ExecutionNode)
    → ready g c ≡ n ∷ ns
    → (elem n.id (ids node_id g.nodes) ≡ true) × (elem n.id c ≡ false)
unfolding ready
ready-head g c n ns e =
    let kept : (q : ExecutionNode → Bool)
        → any q (n ∷ ns) ≡ any (λ m. is_ready g c m && q m) g.nodes =
      λ q.
        ap (any q) (sym e)
        ∙ any-sort_by sorts_before q (keep (is_ready g c) g.nodes)
        ∙ any-keep (is_ready g c) q g.nodes in
    let here : any (λ m. str_eq m.id n.id) (n ∷ ns) ≡ true = ground (arith, eq_refl n.id) in
    (
      sym (any-named n.id g.nodes)
          ∙ any-and (is_ready g c) (λ m. str_eq m.id n.id) g.nodes
              (sym (kept (λ m. str_eq m.id n.id)) ∙ here),
      ground (arith, kept (λ m. elem m.id c) ∙ none_settled g c g.nodes),
    )

-- How many nodes are not settled.
abbrev left : ExecutionGraph → Progress → ℕ
left g p = unseen (ids node_id g.nodes) (settled p)

elem-update :
    (p : Progress) (b : BatchResult) (j : String)
    → elem j (settled (update p b)) ≡ (settles b j || elem j (settled p))
elem-update p b j = ground (
  arith,
  elem-append j (b.completed ++ p.completed) (b.failed ++ p.failed),
  elem-append j b.completed p.completed,
  elem-append j b.failed p.failed,
  elem-append j p.completed p.failed,
)

update-lt :
    (g : ExecutionGraph) (p : Progress) (b : BatchResult) (k : String)
    → elem k (ids node_id g.nodes) ≡ true
    → elem k (settled p) ≡ false
    → settles b k ≡ true
    → left g (update p b) < left g p
update-lt g p b k listed open_k settled_k =
    let more = unseen-lt (ids node_id g.nodes) (settled p) k listed open_k in
    let fewer = unseen-le (ids node_id g.nodes) (k ∷ settled p) (settled (update p b)) (λ j h.
      elem-update p b j
      ∙ ground (arith, h, settled_k, eq_iff k j, elem-append j p.completed p.failed)) in
    omega (arith, more, fewer)

-- What a round with enough fuel answers.
module _ (policy : FailurePolicy) (work : Work) (g : ExecutionGraph) where
  after_batch-ne :
      (again : Progress → Runtime → Outcome) (p : Progress)
      (ran : Result WorkerError (BatchResult × Runtime))
      → ((b : BatchResult) (r : Runtime) → ran ≡ ok (b, r) → again (update p b) r ≢ no_fuel)
      → after_batch policy work g again p ran ≢ no_fuel
  after_batch-ne again p (err e) h = λ t. cc
  after_batch-ne again p (ok (b, r)) h =
      elim (Bool-cases (stops policy && not (is_empty b.failed))) [
        | inl stopped ↦ rw (stopped, after_batch) (λ t. cc)
        | inr more ↦ rw (more, after_batch) (h b r refl)
      ]

  round-ne :
      (again : Progress → Runtime → Outcome) (p : Progress) (r : Runtime) (l : List ExecutionNode)
      → ready g (settled p) ≡ l
      → ((q : Progress) (r' : Runtime) → left g q < left g p → again q r' ≢ no_fuel)
      → round policy work g again p r l ≢ no_fuel
  round-ne again p r [] e h = λ t. cc
  round-ne again p r (n ∷ ns) e h =
      let (listed, open_n) = ready-head g (settled p) n ns e in
      after_batch-ne again p (execute_batch policy work (n ∷ ns) r) (λ b r' ran.
        h (update p b) r'
          (update-lt g p b n.id listed open_n (execute_batch-settles policy work n ns r b r' ran)))

  loop-ne :
      (fuel : ℕ) (p : Progress) (r : Runtime)
      → left g p < fuel
      → loop policy work g fuel p r ≢ no_fuel
  unfolding loop
  loop-ne zero p r h = absurd (omega (arith, h))
  loop-ne (suc fuel) p r h = elim (Bool-cases (is_complete g (settled p))) [
    | inl done ↦ rw (done, loop) (λ t. cc)
    | inr more ↦
        rw (more, loop)
          (round-ne (loop policy work g fuel) p r (ready g (settled p)) refl
            (λ q r' fewer. loop-ne fuel q r' (omega (arith, fewer, h))))
  ]

  unseen-length : (l : List ExecutionNode) → unseen (ids node_id l) [] ≤ length l
  unseen-length [] = omega arith
  unseen-length (n ∷ l) = ground (arith, unseen-length l)

  -- Whatever the workers do, the loop over the batches ends, under every policy: it settles a node
  -- in each round.
  pub execute-ends : (r : Runtime) → execute policy work g r ≢ no_fuel
  unfolding execute
  execute-ends r =
      loop-ne (suc (length g.nodes)) (record { completed = []; failed = [] }) r
        (omega (arith, unseen-length g.nodes))
