-- ===== src/Graph/Search/Verdict.antt =====
-- `_check_cycles` ends, and raises exactly if the graph has a cycle.
use text.Mathlib.Text.{◌==◌ as str_eq}
use text.Mathlib.TextEquality.{eq_iff}
use mathlib.Core.Path.{subst}
use eag.Prelude.{
  keep, ◌&&◌, ℕ, zero, suc, ◌≤◌, ◌≡◌, refl, sym, ap, ◌∙◌, Bool, true, false, Option, none, some,
  List, [], ◌∷◌, String, arith, Bool-cases, inl, inr, length,
}
use eag.Prelude.Keys.{elem, elem-head, unseen, unseen-le, unseen-lt}
use eag.Graph.Search.{Search, visit_children, dfs, search_from, check_cycles, check_cycles}
use eag.Graph.Search.Paths.{Edge, Cycle, IsOrdered, Follows, IsChain, IsOrdered-acyclic}
use eag.Graph.Search.Finished.{
  Splits, Done, Outcome, start_Splits, closing_Cycle, leave-Outcome, then_Outcome, skip_Done,
}

module _ (children : String → List String) (nodes : List String)
    (closed : (x y : String) → Edge children x y → elem y nodes ≡ true) where
  -- What the recursive call promises while at most `fuel` nodes are unvisited.
  abbrev Keeps : ℕ → (String → Search → Option (Bool × Search)) → Type 0
  Keeps fuel call =
      (n : String) (s : Search) (order : List String)
      → elem n nodes ≡ true
      → elem n s.visited ≡ false
      → unseen nodes s.visited ≤ fuel
      → Splits children s order
      → IsChain children (n ∷ s.stack)
      → Outcome children s order (n ∷ []) (call n s)

  visit_children_lem :
      (fuel : ℕ) (call : String → Search → Option (Bool × Search))
      → Keeps fuel call
      → (cs : List String) (s : Search) (order : List String)
      → ((c : String) → elem c cs ≡ true → elem c nodes ≡ true)
      → ((c : String) → elem c cs ≡ true → Follows children c s.stack)
      → unseen nodes s.visited ≤ fuel
      → Splits children s order
      → IsChain children s.stack
      → Outcome children s order cs (visit_children call cs s)
  unfolding visit_children skip_Done
  visit_children_lem fuel call keeps [] s order known edges few p chain = record {
    order' = order;
    splits = p;
    same = refl;
    kept = λ x h. h;
    grown = λ x h. h;
    reached = λ x h. cc;
  }
  visit_children_lem fuel call keeps (c ∷ cs) s order known edges few p chain =
      elim (Bool-cases (elem c s.visited)) [
        | inl seen ↦ elim (Bool-cases (elem c s.stack)) [
          | inl on ↦
              rw (seen, on, visit_children)
                (closing_Cycle children s.stack c chain (edges c (elem-head c cs)) on)
          | inr off ↦
              rw (seen, off, visit_children)
                (then_Outcome children s order c cs s (skip_Done children s order c p seen off)
                  (visit_children call cs s)
                  (visit_children_lem fuel call keeps cs s order
                    (λ x h. known x (ground (arith, h))) (λ x h. edges x (ground (arith, h))) few p
                    chain))
        ]
        | inr new ↦
            called (call c s) refl
              (keeps c s order (known c (elem-head c cs)) new few p
                (edges c (elem-head c cs), chain))
              new (visit_children_lem fuel call keeps cs)
      ]
    where
      called :
          (r : Option (Bool × Search))
          → call c s ≡ r
          → Outcome children s order (c ∷ []) r
          → elem c s.visited ≡ false
          → ((s' : Search) (order' : List String)
              → ((x : String) → elem x cs ≡ true → elem x nodes ≡ true)
              → ((x : String) → elem x cs ≡ true → Follows children x s'.stack)
              → unseen nodes s'.visited ≤ fuel
              → Splits children s' order'
              → IsChain children s'.stack
              → Outcome children s' order' cs (visit_children call cs s'))
          → Outcome children s order (c ∷ cs) (visit_children call (c ∷ cs) s)
      called none e h new rest = absurd h
      called (some (true, s')) e h new rest = rw (new, e, visit_children) h
      called (some (false, s')) e d new rest =
          rw (new, e, visit_children)
            (then_Outcome children s order c cs s' d (visit_children call cs s') (
              rest s' d.order' (λ x h. known x (ground (arith, h)))
                (λ x h. rw d.same (edges x (ground (arith, h))))
                (omega (arith, unseen-le nodes s.visited s'.visited d.kept, few)) d.splits
                (rw d.same chain)))

  dfs_lem : (fuel : ℕ) → Keeps fuel (dfs children fuel)
  unfolding dfs
  dfs_lem zero n s order known new few p chain =
      absurd (omega (arith, unseen-lt nodes s.visited n known new, few))
  dfs_lem (suc fuel) n s order known new few p chain = leave-Outcome children s order n _ p new (
      visit_children_lem fuel (dfs children fuel) (dfs_lem fuel) (children n)
        (record { visited = n ∷ s.visited; stack = n ∷ s.stack }) order (λ c edge. closed n c edge)
        (λ c edge. edge) (omega (arith, unseen-lt nodes s.visited n known new, few))
        (start_Splits children s order n p new) chain)

  -- What the loop over the nodes decides, from nodes that are finished already.
  abbrev Decides : List String → List String → Option Bool → Type 0
  Decides order rest none = ⊥
  Decides order rest (some true) = Cycle children
  Decides order rest (some false) =
      (order' : List String) × IsOrdered children order'
      × ((x : String) → elem x order ≡ true → elem x order' ≡ true)
      × ((x : String) → elem x rest ≡ true → elem x order' ≡ true)

  Decides-cons :
      (s : Search) (order : List String) (n : String) (rest : List String) (s' : Search)
      → (d : Done children s order (n ∷ []) s') → (r : Option Bool) → Decides d.order' rest r
      → Decides order (n ∷ rest) r
  Decides-cons s order n rest s' d none h = h
  Decides-cons s order n rest s' d (some true) h = h
  Decides-cons s order n rest s' d (some false) (order', ordered, more, all_of) = (
    order',
    ordered,
    λ x h. more x (d.grown x h),
    λ x h. elim (Bool-cases (str_eq n x)) [
      | inl same ↦ more x (d.reached x (ground arith))
      | inr other ↦ all_of x (ground arith)
    ],
  )

  search_from_lem :
      (fuel : ℕ) (rest : List String) (s : Search) (order : List String)
      → ((x : String) → elem x rest ≡ true → elem x nodes ≡ true)
      → unseen nodes s.visited ≤ fuel
      → Splits children s order
      → s.stack ≡ []
      → Decides order rest (search_from children fuel rest s)
  unfolding search_from skip_Done
  search_from_lem fuel [] s order known few p idle = (order, p.ordered, λ x h. h, λ x h. cc)
  search_from_lem fuel (n ∷ rest) s order known few p idle = elim (Bool-cases (elem n s.visited)) [
    | inl seen ↦
        rw (seen, search_from)
          (Decides-cons s order n rest s (skip_Done children s order n p seen (ap (elem n) idle)) _
            (search_from_lem fuel rest s order (λ x h. known x (ground (arith, h))) few p idle))
    | inr new ↦
        searched (dfs children fuel n s) refl
          (dfs_lem fuel n s order (known n (elem-head n rest)) new few p
            (subst (λ l. IsChain children (n ∷ l)) (sym idle) (tt, tt)))
          new (search_from_lem fuel rest)
  ]
    where
      searched :
          (r : Option (Bool × Search))
          → dfs children fuel n s ≡ r
          → Outcome children s order (n ∷ []) r
          → elem n s.visited ≡ false
          → ((s' : Search) (order' : List String)
              → ((x : String) → elem x rest ≡ true → elem x nodes ≡ true)
              → unseen nodes s'.visited ≤ fuel
              → Splits children s' order'
              → s'.stack ≡ []
              → Decides order' rest (search_from children fuel rest s'))
          → Decides order (n ∷ rest) (search_from children fuel (n ∷ rest) s)
      searched none e h new next = absurd h
      searched (some (true, s')) e h new next = rw (new, e, search_from) h
      searched (some (false, s')) e d new next =
          rw (new, e, search_from)
            (Decides-cons s order n rest s' d _ (
              next s' d.order' (λ x h. known x (ground (arith, h)))
                (omega (arith, unseen-le nodes s.visited s'.visited d.kept, few)) d.splits
                (d.same ∙ idle)))

pub unseen-nil : (nodes : List String) → unseen nodes [] ≤ length nodes
unseen-nil [] = omega arith
unseen-nil (n ∷ nodes) = omega (arith, unseen-nil nodes)

-- An order of exactly the nodes of a graph: the reason that it has no cycle.
pub record Orders (children : String → List String) (nodes : List String) : Type 0 where
  pub order : List String
  pub ordered : IsOrdered children order
  pub covers : (x : String) → elem x order ≡ elem x nodes

elem-keep :
    (p : String → Bool) (x : String) (l : List String) → elem x (keep p l) ≡ (elem x l && p x)
elem-keep p x [] = refl
elem-keep p x (k ∷ l) = elim (Bool-cases (str_eq k x)) [
  | inl same ↦ ground (arith, elem-keep p x l, ap p ((eq_iff k x).0 same))
  | inr other ↦ ground (arith, elem-keep p x l)
]

keep-IsOrdered :
    (children : String → List String) (p : String → Bool) (l : List String)
    → ((x y : String) → Edge children x y → p y ≡ true)
    → IsOrdered children l
    → IsOrdered children (keep p l)
keep-IsOrdered children p [] closed o = tt
keep-IsOrdered children p (k ∷ l) closed o = elim (Bool-cases (p k)) [
  | inl kept ↦ rw kept (
    rw (elem-keep p k l) (ground (arith, o.0)),
    λ y e. rw (elem-keep p y l) (ground (arith, o.1 y e, closed k y e)),
    keep-IsOrdered children p l closed o.2,
  )
  | inr left ↦ rw left (keep-IsOrdered children p l closed o.2)
]

module _ (children : String → List String) (nodes : List String)
    (closed : (x y : String) → Edge children x y → elem y nodes ≡ true) where
  abbrev pub Answers : Option Bool → Type 0
  Answers none = ⊥
  Answers (some true) = Cycle children
  Answers (some false) = Orders children nodes

  answers : (r : Option Bool) → Decides children nodes closed [] nodes r → Answers r
  answers none h = h
  answers (some true) h = h
  answers (some false) (order, ordered, more, covers) = record {
    order = keep (λ x. elem x nodes) order;
    ordered = keep-IsOrdered children (λ x. elem x nodes) order closed ordered;
    covers = λ x. elem-keep (λ y. elem y nodes) x order ∙ ground (arith, covers x);
  }

  -- The search ends with an answer; if it raises there is a cycle, and otherwise the nodes have an
  -- order in which each stands before its children.
  pub check_cycles_lem : Answers (check_cycles children nodes)
  unfolding check_cycles
  check_cycles_lem = answers _ (
      search_from_lem children nodes closed (length nodes) nodes
        (record { visited = []; stack = [] }) [] (λ x h. h) (unseen-nil nodes)
        (record { ordered = tt; split = λ x. refl; apart = λ x h. cc }) refl)

-- A graph whose nodes have an order has no cycle.
pub Orders-acyclic :
    {children : String → List String} {nodes : List String}
    → ((x y : String) → Edge children x y → elem x nodes ≡ true)
    → Orders children nodes
    → ¬ Cycle children
Orders-acyclic {children} known o c =
    IsOrdered-acyclic children o.order c.source c.target o.ordered
      (o.covers c.source ∙ known c.source c.target c.edge) c.edge c.back
