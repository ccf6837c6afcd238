-- ===== src/Graph/TaskGraph/Topological/Visits.antt =====
-- What the calls of `dfs` of `topological_sort` leave behind, on a graph without cycles.
use text.Mathlib.Text.{◌==◌ as str_eq}
use text.Mathlib.TextEquality.{eq_iff}
use text.Mathlib.TextPositions.{eq_refl}
use eag.Prelude.{
  ℕ, zero, suc, ◌≤◌, ◌≡◌, refl, sym, ◌∙◌, true, false, ◌||◌, Option, none, some, List, [], ◌∷◌,
  String, arith, Bool-cases, inl, inr, any,
}
use eag.Prelude.Keys.{elem, elem-head, unseen, unseen-le, unseen-lt}
use eag.Prelude.Sorting.{any-sort_by}
use eag.Graph.Search.{Search}
use eag.Graph.Search.Paths.{Edge, Cycle, Follows, IsChain}
use eag.Graph.Search.Finished.{Splits, closing_Cycle, start_Splits, elem-skip}
use eag.Graph.TaskGraph.{text_le}
use eag.Graph.TaskGraph.Topological.{Sorted, sorted_down, visit_all, push, dfs}

elem-any : (k : String) (l : List String) → elem k l ≡ any (λ j. str_eq j k) l
elem-any k [] = refl
elem-any k (j ∷ l) = ground (arith, elem-any k l)

pub elem-sorted_down : (k : String) (l : List String) → elem k (sorted_down l) ≡ elem k l
unfolding sorted_down
elem-sorted_down k l =
    elem-any k (sorted_down l)
    ∙ any-sort_by (λ s t. text_le t s) (λ j. str_eq j k) l
    ∙ sym (elem-any k l)

-- The state as a search with its calls in progress on the stack.
abbrev pub view : Sorted → List String → Search
view t active = record { visited = t.visited; stack = active }

module _ (children : String → List String) (nodes : List String)
    (closed : (x y : String) → Edge children x y → elem y nodes ≡ true)
    (acyclic : ¬ Cycle children) where
  -- The finished nodes stand on the stack in an order, and the goals are among them.
  pub record Done (t : Sorted) (active goals : List String) (t' : Sorted) : Type 0 where
    pub splits : Splits children (view t' active) t'.stack
    pub kept : (x : String) → elem x t.visited ≡ true → elem x t'.visited ≡ true
    pub grown : (x : String) → elem x t.stack ≡ true → elem x t'.stack ≡ true
    pub reached : (x : String) → elem x goals ≡ true → elem x t'.stack ≡ true
    pub known : (x : String) → elem x t'.visited ≡ true → (elem x t.visited || elem x nodes) ≡ true

  abbrev pub Outcome : Sorted → List String → List String → Option Sorted → Type 0
  Outcome t active goals none = ⊥
  Outcome t active goals (some t') = Done t active goals t'

  abbrev started : String → Sorted → Sorted
  started n t = record { visited = n ∷ t.visited; stack = t.stack }

  nothing_Done :
      (t : Sorted) (active : List String)
      → Splits children (view t active) t.stack
      → Done t active [] t
  nothing_Done t active p = record {
    splits = p;
    kept = λ x h. h;
    grown = λ x h. h;
    reached = λ x h. cc;
    known = λ x h. ground (arith, h);
  }

  then_Done :
      (t : Sorted) (active : List String) (c : String) (cs : List String) (t' t'' : Sorted)
      → Done t active (c ∷ []) t'
      → Done t' active cs t''
      → Done t active (c ∷ cs) t''
  then_Done t active c cs t' t'' d e = record {
    splits = e.splits;
    kept = λ x h. e.kept x (d.kept x h);
    grown = λ x h. e.grown x (d.grown x h);
    reached = λ x h. elim (Bool-cases (str_eq c x)) [
      | inl same ↦ e.grown x (d.reached x (ground arith))
      | inr other ↦ e.reached x (ground arith)
    ];
    known = λ x h. ground (arith, e.known x h, d.known x);
  }

  skip_Done :
      (t : Sorted) (active : List String) (c : String)
      → Splits children (view t active) t.stack
      → elem c t.visited ≡ true
      → elem c active ≡ false
      → Done t active (c ∷ []) t
  skip_Done t active c p seen off = record {
    splits = p;
    kept = λ x h. h;
    grown = λ x h. h;
    reached = elem-skip children (view t active) t.stack c p seen off;
    known = λ x h. ground (arith, h);
  }

  push-Outcome :
      (t : Sorted) (active : List String) (n : String) (r : Option Sorted)
      → (goals : List String) → ((x : String) → Edge children n x → elem x goals ≡ true)
      → Splits children (view t active) t.stack
      → elem n nodes ≡ true
      → elem n t.visited ≡ false
      → Outcome (started n t) (n ∷ active) goals r
      → Outcome t active (n ∷ []) (push n r)
  push-Outcome t active n none goals all_of p in_nodes new h = h
  push-Outcome t active n (some t') goals all_of p in_nodes new d = record {
    splits = record {
      ordered = (
        ground (arith, d.splits.apart n, eq_refl n),
        λ y e. d.reached y (all_of y e),
        d.splits.ordered,
      );
      split = λ x. ground (arith, d.splits.split x);
      apart = λ x h. ground (arith, h, d.splits.apart x, p.split n, eq_iff n x);
    };
    kept = λ x h. d.kept x (ground (arith, h));
    grown = λ x h. ground (arith, d.grown x h);
    reached = λ x h. ground (arith, h);
    known = λ x h. ground (arith, d.known x h, in_nodes, eq_iff n x);
  }

  -- What the call of `dfs` promises while at most `fuel` nodes are unvisited.
  abbrev pub Keeps : ℕ → (String → Sorted → Option Sorted) → Type 0
  Keeps fuel call =
      (n : String) (t : Sorted) (active : List String)
      → elem n nodes ≡ true
      → elem n t.visited ≡ false
      → unseen nodes t.visited ≤ fuel
      → Splits children (view t active) t.stack
      → IsChain children (n ∷ active)
      → Outcome t active (n ∷ []) (call n t)

  then_Outcome :
      (t : Sorted) (active : List String) (c : String) (cs : List String) (t' : Sorted)
      → Done t active (c ∷ []) t'
      → (r : Option Sorted) → Outcome t' active cs r
      → Outcome t active (c ∷ cs) r
  then_Outcome t active c cs t' d none h = h
  then_Outcome t active c cs t' d (some t'') h = then_Done t active c cs t' t'' d h

  pub visit_all_lem :
      (fuel : ℕ) (call : String → Sorted → Option Sorted)
      → Keeps fuel call
      → (cs : List String) (t : Sorted) (active : List String)
      → ((c : String) → elem c cs ≡ true → elem c nodes ≡ true)
      → ((c : String) → elem c cs ≡ true → Follows children c active)
      → unseen nodes t.visited ≤ fuel
      → Splits children (view t active) t.stack
      → IsChain children active
      → Outcome t active cs (visit_all call cs t)
  unfolding visit_all
  visit_all_lem fuel call keeps [] t active known edges few p chain = nothing_Done t active p
  visit_all_lem fuel call keeps (c ∷ cs) t active known edges few p chain =
      elim (Bool-cases (elem c t.visited)) [
        | inl seen ↦ elim (Bool-cases (elem c active)) [
          | inl on ↦
              absurd (acyclic (closing_Cycle children active c chain (edges c (elem-head c cs)) on))
          | inr off ↦
              rw (seen, visit_all)
                (then_Outcome t active c cs t (skip_Done t active c p seen off) _ (
                  visit_all_lem fuel call keeps cs t active (λ x h. known x (ground (arith, h)))
                    (λ x h. edges x (ground (arith, h))) few p chain))
        ]
        | inr new ↦
            called (call c t) refl
              (keeps c t active (known c (elem-head c cs)) new few p
                (edges c (elem-head c cs), chain))
              new (visit_all_lem fuel call keeps cs)
      ]
    where
      called :
          (r : Option Sorted)
          → call c t ≡ r
          → Outcome t active (c ∷ []) r
          → elem c t.visited ≡ false
          → ((t' : Sorted) (active' : List String)
              → ((x : String) → elem x cs ≡ true → elem x nodes ≡ true)
              → ((x : String) → elem x cs ≡ true → Follows children x active')
              → unseen nodes t'.visited ≤ fuel
              → Splits children (view t' active') t'.stack
              → IsChain children active'
              → Outcome t' active' cs (visit_all call cs t'))
          → Outcome t active (c ∷ cs) (visit_all call (c ∷ cs) t)
      called none e h new rest = absurd h
      called (some t') e d new rest =
          rw (new, e, visit_all)
            (then_Outcome t active c cs t' d (visit_all call cs t') (
              rest t' active (λ x h. known x (ground (arith, h)))
                (λ x h. edges x (ground (arith, h)))
                (omega (arith, unseen-le nodes t.visited t'.visited d.kept, few)) d.splits chain))

  pub dfs_lem : (fuel : ℕ) → Keeps fuel (dfs children fuel)
  unfolding dfs
  dfs_lem zero n t active in_nodes new few p chain =
      absurd (omega (arith, unseen-lt nodes t.visited n in_nodes new, few))
  dfs_lem (suc fuel) n t active in_nodes new few p chain =
      let same : (x : String) → elem x (sorted_down (children n)) ≡ elem x (children n) =
        λ x. elem-sorted_down x (children n) in
      push-Outcome t active n _ (sorted_down (children n)) (λ x e. same x ∙ e) p in_nodes new
        (visit_all_lem fuel (dfs children fuel) (dfs_lem fuel) (sorted_down (children n))
          (started n t) (n ∷ active) (λ c e. closed n c (sym (same c) ∙ e))
          (λ c e. sym (same c) ∙ e) (omega (arith, unseen-lt nodes t.visited n in_nodes new, few))
          (start_Splits children (view t active) t.stack n p new) chain)
