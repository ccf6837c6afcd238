-- ===== src/Graph/Starts.antt =====
-- Which nodes of a graph may start, for the task graph and the execution graph alike.
use text.Mathlib.Text.{◌==◌ as str_eq}
use text.Mathlib.TextEquality.{eq_iff}
use mathlib.Core.Path.{subst}
use eag.Prelude.{
  ◌≡◌, refl, sym, ◌∙◌, Bool, true, false, not, ◌&&◌, List, [], ◌∷◌, String, arith, Bool-cases, inl,
  inr, all,
}
use eag.Prelude.Keys.{elem, elem-head}
use eag.Graph.Links.{Maps}
use eag.Graph.Search.Paths.{Edge, IsOrdered, IsOrdered-Edge}

-- May the node with this identifier start?
abbrev pub may_start : Maps → List String → String → Bool
may_start maps completed k = not (elem k completed) && all (λ p. elem p completed) (maps.parents k)

all_of :
    (p : String → Bool) (ks : List String)
    → ((k : String) → elem k ks ≡ true → p k ≡ true)
    → all p ks ≡ true
all_of p [] h = refl
all_of p (k ∷ ks) h =
    ground (arith, h k (elem-head k ks), all_of p ks (λ j m. h j (ground (arith, m))))

-- In an order of the nodes the first one that is not completed may start.
module _ (maps : Maps) (completed : List String)
    (converse : (x y : String) → elem x (maps.parents y) ≡ elem y (maps.children x)) where
  pub record Starter (l : List String) : Type 0 where
    pub key : String
    pub listed : elem key l ≡ true
    pub starts : may_start maps completed key ≡ true

  -- The parents of the head of an order are completed, if they stand in the order or are.
  head_starts :
      (z : String) (l : List String)
      → IsOrdered maps.children (z ∷ l)
      → ((x : String) → Edge maps.children x z → elem x completed ≡ false → elem x (z ∷ l) ≡ true)
      → (x : String) → elem x (maps.parents z) ≡ true
      → elem x completed ≡ true
  head_starts z l o before x parent =
      let edge : Edge maps.children x z = sym (converse x z) ∙ parent in
      elim (Bool-cases (elem x completed)) [
        | inl done ↦ done
        | inr todo ↦ elim (Bool-cases (str_eq z x)) [
          | inl same ↦
              cc (o.0, o.1 z (subst (λ w. Edge maps.children w z) (sym ((eq_iff z x).0 same)) edge))
          | inr other ↦ cc (
            o.0,
            IsOrdered-Edge maps.children l x z o.2 (ground (arith, before x edge todo)) edge,
          )
        ]
      ]

  pub starter :
      (l : List String) (k : String)
      → IsOrdered maps.children l
      → ((x y : String)
          → Edge maps.children x y
          → elem y l ≡ true
          → elem x completed ≡ false
          → elem x l ≡ true)
      → elem k l ≡ true
      → elem k completed ≡ false
      → Starter l
  starter [] k o before h open_k = cc
  starter (z ∷ l) k o before h open_k = elim (Bool-cases (elem z completed)) [
    | inl done ↦
        let s =
          starter l k o.2
            (λ x y e hy hx. ground (arith, before x y e (ground (arith, hy)) hx, eq_iff z x))
            (ground (arith, eq_iff z k)) open_k in
        record { key = s.key; listed = ground (arith, s.listed); starts = s.starts }
    | inr todo ↦ record {
      key = z;
      listed = elem-head z l;
      starts = ground (
        arith,
        todo,
        all_of (λ p. elem p completed) (maps.parents z)
            (head_starts z l o (λ x e hx. before x z e (elem-head z l) hx)),
      );
    }
  ]
