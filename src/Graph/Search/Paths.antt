-- ===== src/Graph/Search/Paths.antt =====
-- Paths in a graph that is given by the children of each node, and orders of its nodes.
use text.Mathlib.Text.{◌==◌ as str_eq}
use text.Mathlib.TextEquality.{eq_iff}
use eag.Prelude.{◌≡◌, sym, ap, true, false, List, [], ◌∷◌, String, arith, Bool-cases, inl, inr}
use mathlib.Core.Path.{subst}
use eag.Prelude.Keys.{elem}

module _ (children : String → List String) where
  abbrev pub Edge : String → String → Type 0
  Edge x y = elem y (children x) ≡ true

  -- A path of any length.
  pub data Star (x : String) : String → Type 0 where
    here : Star x x
    further : {y z : String} → Star x y → Edge y z → Star x z

  -- An edge and a way back.
  pub record Cycle : Type 0 where
    pub source : String
    pub target : String
    pub edge : Edge source target
    pub back : Star target source

  -- Each node's children stand behind it, and no node stands twice.
  abbrev pub IsOrdered : List String → Type 0
  IsOrdered [] = Unit
  IsOrdered (x ∷ l) = (elem x l ≡ false) × ((y : String) → Edge x y → elem y l ≡ true) × IsOrdered l

  -- An edge from the head of a stack, if there is one.
  abbrev pub Follows : String → List String → Type 0
  Follows b [] = Unit
  Follows b (a ∷ stack) = Edge a b

  -- A stack of nodes that are each reached from the one below.
  abbrev pub IsChain : List String → Type 0
  IsChain [] = Unit
  IsChain (b ∷ stack) = Follows b stack × IsChain stack

  pub IsOrdered-Edge :
      (l : List String) (x y : String) → IsOrdered l → elem x l ≡ true → Edge x y → elem y l ≡ true
  IsOrdered-Edge [] x y o h e = cc
  IsOrdered-Edge (z ∷ l) x y o h e = elim (Bool-cases (str_eq z x)) [
    | inl same ↦ ground (arith, o.1 y (subst (λ w. Edge w y) (sym ((eq_iff z x).0 same)) e))
    | inr other ↦ ground (arith, IsOrdered-Edge l x y o.2)
  ]

  IsOrdered-Star :
      (l : List String) {x y : String} → IsOrdered l → elem x l ≡ true → Star x y → elem y l ≡ true
  IsOrdered-Star l o h here = h
  IsOrdered-Star l o h (further {y = y} {z = z} s e) =
      IsOrdered-Edge l y z o (IsOrdered-Star l o h s) e

  -- An ordered list of nodes meets no cycle.
  pub IsOrdered-acyclic :
      (l : List String) (x y : String) → IsOrdered l → elem x l ≡ true → Edge x y → Star y x → ⊥
  IsOrdered-acyclic [] x y o h e back = cc
  IsOrdered-acyclic (z ∷ l) x y o h e back = elim (Bool-cases (str_eq z x)) [
    | inl same ↦
        let p : z ≡ x = (eq_iff z x).0 same in
        let below : elem x l ≡ true =
          IsOrdered-Star l o.2 (o.1 y (subst (λ w. Edge w y) (sym p) e)) back in
        cc (ap (λ w. elem w l) p, o.0, below)
    | inr other ↦ IsOrdered-acyclic l x y o.2 (ground arith) e back
  ]

  -- The head of a chain is reached from each of its nodes.
  pub IsChain-Star :
      (a : String) (stack : List String) (c : String)
      → IsChain (a ∷ stack)
      → elem c (a ∷ stack) ≡ true
      → Star c a
  IsChain-Star a [] c ch h = subst (λ w. Star c w) (sym ((eq_iff a c).0 (ground arith))) here
  IsChain-Star a (b ∷ stack) c ch h = elim (Bool-cases (str_eq a c)) [
    | inl same ↦ subst (λ w. Star c w) (sym ((eq_iff a c).0 same)) here
    | inr other ↦ further (IsChain-Star b stack c ch.1 (ground arith)) ch.0
  ]
