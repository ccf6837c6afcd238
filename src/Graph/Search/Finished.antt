-- ===== src/Graph/Search/Finished.antt =====
-- What one call of the nested `dfs` of `_check_cycles` leaves behind.
use text.Mathlib.Text.{◌==◌ as str_eq}
use text.Mathlib.TextEquality.{eq_iff}
use eag.Prelude.{
  ◌≡◌, refl, ap, ◌∙◌, Bool, true, false, ◌||◌, Option, none, some, List, [], ◌∷◌, String, arith,
  Bool-cases, inl, inr,
}
use eag.Prelude.Keys.{elem, remove, elem-head, remove-head}
use eag.Graph.Search.{Search, leave}
use eag.Graph.Search.Paths.{Cycle, IsOrdered, Follows, IsChain, IsChain-Star}

-- The visited nodes are those on the stack and those that are finished, which stand in an order.
pub record Splits (children : String → List String) (s : Search) (order : List String)
    : Type 0 where
  pub ordered : IsOrdered children order
  pub split : (x : String) → elem x s.visited ≡ (elem x order || elem x s.stack)
  pub apart : (x : String) → elem x order ≡ true → elem x s.stack ≡ false

-- What a search without a cycle leaves: the goals are finished too.
pub record Done (children : String → List String) (s : Search) (order goals : List String)
    (s' : Search) : Type 0 where
  pub order' : List String
  pub splits : Splits children s' order'
  pub same : s'.stack ≡ s.stack
  pub kept : (x : String) → elem x s.visited ≡ true → elem x s'.visited ≡ true
  pub grown : (x : String) → elem x order ≡ true → elem x order' ≡ true
  pub reached : (x : String) → elem x goals ≡ true → elem x order' ≡ true

module _ (children : String → List String) where
  abbrev pub Outcome : Search → List String → List String → Option (Bool × Search) → Type 0
  Outcome s order goals none = ⊥
  Outcome s order goals (some (true, s')) = Cycle children
  Outcome s order goals (some (false, s')) = Done children s order goals s'

  pub start_Splits :
      (s : Search) (order : List String) (n : String)
      → Splits children s order
      → elem n s.visited ≡ false
      → Splits children (record { visited = n ∷ s.visited; stack = n ∷ s.stack }) order
  start_Splits s order n p new = record {
    ordered = p.ordered;
    split = λ x. ground (arith, p.split x, p.split n, eq_iff n x);
    apart = λ x h. ground (arith, p.apart x h, p.split n, p.split x, eq_iff n x);
  }

  -- A node on the stack with an edge from the top closes a cycle.
  pub closing_Cycle :
      (stack : List String) (c : String)
      → IsChain children stack
      → Follows children c stack
      → elem c stack ≡ true
      → Cycle children
  closing_Cycle [] c chain edge h = cc
  closing_Cycle (a ∷ stack) c chain edge h = record {
    source = a;
    target = c;
    edge = edge;
    back = IsChain-Star children a stack c chain h;
  }

  -- Leaving a node finishes it.
  pub leave_Done :
      (s : Search) (order : List String) (n : String) (s' : Search)
      → Splits children s order
      → elem n s.visited ≡ false
      → Done children
          (record { visited = n ∷ s.visited; stack = n ∷ s.stack })
          order
          (children n)
          s'
      → Done children s order (n ∷ []) (record s' { stack = remove n s'.stack })
  leave_Done s order n s' p new d =
      let emptied : remove n s'.stack ≡ s.stack = ap (remove n) d.same ∙ remove-head n s.stack in
      let on_top : elem n s'.stack ≡ true = ap (elem n) d.same ∙ elem-head n s.stack in
      let off_stack : elem n s.stack ≡ false = ground (arith, p.split n) in
      record {
        order' = n ∷ d.order';
        splits = record {
          ordered = (ground (arith, on_top, d.splits.apart n), d.reached, d.splits.ordered);
          split = λ x. ground (arith, d.splits.split x, ap (elem x) d.same, ap (elem x) emptied);
          apart = λ x h.
              ap (elem x) emptied
              ∙ ground (arith, off_stack, h, d.splits.apart x, ap (elem x) d.same, eq_iff n x);
        };
        same = emptied;
        kept = λ x h. d.kept x (ground (arith, h));
        grown = λ x h. ground (arith, d.grown x h);
        reached = λ x h. ground (arith, h);
      }

  pub leave-Outcome :
      (s : Search) (order : List String) (n : String) (r : Option (Bool × Search))
      → Splits children s order
      → elem n s.visited ≡ false
      → Outcome (record { visited = n ∷ s.visited; stack = n ∷ s.stack }) order (children n) r
      → Outcome s order (n ∷ []) (leave n r)
  leave-Outcome s order n none p new h = h
  leave-Outcome s order n (some (true, s')) p new h = h
  leave-Outcome s order n (some (false, s')) p new h = leave_Done s order n s' p new h

  -- One search behind another.
  pub then_Done :
      (s : Search) (order : List String) (c : String) (cs : List String) (s' : Search)
      → (d : Done children s order (c ∷ []) s') → (s'' : Search) → Done children s' d.order' cs s''
      → Done children s order (c ∷ cs) s''
  then_Done s order c cs s' d s'' e = record {
    order' = e.order';
    splits = e.splits;
    same = e.same ∙ d.same;
    kept = λ x h. e.kept x (d.kept x h);
    grown = λ x h. e.grown x (d.grown x h);
    reached = λ x h. elim (Bool-cases (str_eq c x)) [
      | inl same ↦ e.grown x (d.reached x (ground arith))
      | inr other ↦ e.reached x (ground arith)
    ];
  }

  pub then_Outcome :
      (s : Search) (order : List String) (c : String) (cs : List String) (s' : Search)
      → (d : Done children s order (c ∷ []) s') → (r : Option (Bool × Search))
      → Outcome s' d.order' cs r
      → Outcome s order (c ∷ cs) r
  then_Outcome s order c cs s' d none h = h
  then_Outcome s order c cs s' d (some (true, s'')) h = h
  then_Outcome s order c cs s' d (some (false, s'')) h = then_Done s order c cs s' d s'' h

  pub elem-skip :
      (s : Search) (order : List String) (c : String)
      → Splits children s order
      → elem c s.visited ≡ true
      → elem c s.stack ≡ false
      → (x : String) → elem x (c ∷ []) ≡ true
      → elem x order ≡ true
  elem-skip s order c p seen off x h = ground (arith, p.split x, p.split c, eq_iff c x)

  -- A visited node that is not on the stack is finished.
  unfoldable pub skip_Done :
      (s : Search) (order : List String) (c : String)
      → Splits children s order
      → elem c s.visited ≡ true
      → elem c s.stack ≡ false
      → Done children s order (c ∷ []) s
  skip_Done s order c p seen off = record {
    order' = order;
    splits = p;
    same = refl;
    kept = λ x h. h;
    grown = λ x h. h;
    reached = elem-skip s order c p seen off;
  }
