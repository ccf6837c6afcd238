-- ===== src/Prelude/Keys.antt =====
-- Collections of identifiers: Python's `in`, `set.remove`, and counting what is not yet in a set.
use Prim.Native.Nat.{ℕ, suc, ◌≤◌, ◌<◌}
use Prim.Native.String.{String}
use mathlib.Core.Path.{◌≡◌, refl}
use mathlib.Core.Bool.{Bool, true, false, ◌||◌}
use mathlib.Core.List.{List, [], ◌∷◌, ◌++◌}
use native.Mathlib.Omega.{arith}
use text.Mathlib.Text.{◌==◌ as str_eq}
use text.Mathlib.TextEquality.{eq_iff}
use text.Mathlib.TextPositions.{eq_refl}
use eag.Prelude.Tests.{if◌then◌else◌, Bool-cases}
use mathlib.Core.Logic.{inl, inr}

-- `k in keys`
abbrev pub elem : String → List String → Bool
elem k [] = false
elem k (j ∷ keys) = str_eq j k || elem k keys

-- `keys.remove(k)` on a list that holds each key once.
abbrev pub remove : String → List String → List String
remove k [] = []
remove k (j ∷ keys) = if str_eq j k then keys else j ∷ remove k keys

pub elem-append : (k : String) (xs ys : List String) → elem k (xs ++ ys) ≡ (elem k xs || elem k ys)
elem-append k [] ys = refl
elem-append k (x ∷ xs) ys = ground (arith, elem-append k xs ys)

pub elem-head : (k : String) (keys : List String) → elem k (k ∷ keys) ≡ true
elem-head k keys = ground (arith, eq_refl k)

pub remove-head : (k : String) (keys : List String) → remove k (k ∷ keys) ≡ keys
remove-head k keys = ground (arith, eq_refl k)

-- How many of the keys are not in a set.
abbrev pub unseen : List String → List String → ℕ
unseen [] seen = 0
unseen (k ∷ keys) seen = if elem k seen then unseen keys seen else suc (unseen keys seen)

pub unseen-le :
    (keys seen seen' : List String)
    → ((k : String) → elem k seen ≡ true → elem k seen' ≡ true)
    → unseen keys seen' ≤ unseen keys seen
unseen-le [] seen seen' more = omega arith
unseen-le (k ∷ keys) seen seen' more = ground (arith, more k, unseen-le keys seen seen' more)

pub unseen-lt :
    (keys seen : List String) (k : String)
    → elem k keys ≡ true
    → elem k seen ≡ false
    → unseen keys (k ∷ seen) < unseen keys seen
unseen-lt [] seen k here new = cc
unseen-lt (j ∷ keys) seen k here new = elim (Bool-cases (str_eq j k)) [
  | inl same ↦
      let e : j ≡ k = (eq_iff j k).0 same in
      let fewer = unseen-le keys seen (k ∷ seen) (λ i h. ground (arith, h)) in
      ground (arith, e, eq_iff j k, eq_iff k j, fewer)
  | inr other ↦ ground (arith, eq_iff j k, eq_iff k j, unseen-lt keys seen k)
]
