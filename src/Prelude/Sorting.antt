-- ===== src/Prelude/Sorting.antt =====
-- Python's `sorted` with a key: a stable sort by a total test.
use mathlib.Core.Path.{◌≡◌, refl}
use mathlib.Core.Bool.{Bool, true, false, not, ◌&&◌, ◌||◌}
use mathlib.Core.Logic.{inl, inr}
use Prim.Native.Nat.{ℕ, ◌≤◌}
use mathlib.Core.List.{List, [], ◌∷◌}
use native.Mathlib.Omega.{arith}
use eag.Prelude.Tests.{if◌then◌else◌, ltb, Bool-cases}
use eag.Prelude.Lists.{any}

module _ {ℓ} {A : Type ℓ} where
  -- No item's measure is below that of an item before it.
  abbrev pub is_sorted : (A → ℕ) → List A → Bool
  is_sorted f [] = true
  is_sorted f (a ∷ l) = not (any (λ b. ltb (f b) (f a)) l) && is_sorted f l

  -- Before the first item that does not sort before it.
  unfoldable pub insert_by : (A → A → Bool) → A → List A → List A
  insert_by le a [] = a ∷ []
  insert_by le a (b ∷ l) = let rest = insert_by le a l in if le a b then a ∷ b ∷ l else b ∷ rest

  unfoldable pub sort_by : (A → A → Bool) → List A → List A
  unfolding insert_by
  sort_by le [] = []
  sort_by le (a ∷ l) = insert_by le a (sort_by le l)

  pub any-insert_by :
      (le : A → A → Bool) (p : A → Bool) (a : A) (l : List A)
      → any p (insert_by le a l) ≡ (p a || any p l)
  unfolding insert_by
  any-insert_by le p a [] = refl
  any-insert_by le p a (b ∷ l) = ground (arith, any-insert_by le p a l)

  -- Sorting keeps the items.
  pub any-sort_by : (le : A → A → Bool) (p : A → Bool) (l : List A) → any p (sort_by le l) ≡ any p l
  unfolding sort_by
  any-sort_by le p [] = refl
  any-sort_by le p (a ∷ l) = ground (arith, any-insert_by le p a (sort_by le l), any-sort_by le p l)

-- Sorting by a test that follows a measure.
module _ {ℓ} {A : Type ℓ} (le : A → A → Bool) (f : A → ℕ)
    (le_true : (a b : A) → le a b ≡ true → f a ≤ f b)
    (le_false : (a b : A) → le a b ≡ false → f b ≤ f a) where
  least-any :
      (m n : ℕ) (l : List A)
      → m ≤ n
      → any (λ b. ltb (f b) n) l ≡ false
      → any (λ b. ltb (f b) m) l ≡ false
  least-any m n [] h t = refl
  least-any m n (a ∷ l) h t = ground (arith, h, t, least-any m n l h)

  insert_by-is_sorted :
      (a : A) (l : List A) → is_sorted f l ≡ true → is_sorted f (insert_by le a l) ≡ true
  unfolding insert_by
  insert_by-is_sorted a [] h = refl
  insert_by-is_sorted a (b ∷ l) h = elim (Bool-cases (le a b)) [
    | inl before ↦ ground (arith, before, h, le_true a b before, least-any (f a) (f b) l)
    | inr behind ↦ ground (
      arith,
      behind,
      h,
      le_false a b behind,
      insert_by-is_sorted a l,
      any-insert_by le (λ c. ltb (f c) (f b)) a l,
    )
  ]

  pub sort_by-is_sorted : (l : List A) → is_sorted f (sort_by le l) ≡ true
  unfolding sort_by
  sort_by-is_sorted [] = refl
  sort_by-is_sorted (a ∷ l) = insert_by-is_sorted a (sort_by le l) (sort_by-is_sorted l)
