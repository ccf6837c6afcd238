-- ===== src/Scheduler/Queue/Order.antt =====
-- The queue holds each task once, in the order of the priorities.
use text.Mathlib.Text.{◌==◌ as str_eq}
use text.Mathlib.TextEquality.{eq_iff}
use mathlib.Core.Path.{subst}
use eag.Prelude.{
  ℕ, ◌≤◌, ◌≡◌, refl, sym, ap, ◌∙◌, Bool, true, false, not, ◌&&◌, ◌||◌, [], ◌∷◌, ◌++◌, String, ok,
  guard, any, any-append, ltb, arith, >>-eq-ok, guard-eq-ok, ok-injective, Bool-cases, inl, inr,
}
use eag.Prelude.Sorting.{
  sort_by, insert_by, any-sort_by, any-insert_by, is_sorted, sort_by-is_sorted,
}
use eag.Graph.TaskGraph.{TaskNode, sorts_before, priority_order}
use eag.Scheduler.Queue.{ReadyQueue, contains, push, pop, remove}

abbrev pub rank_of : TaskNode → ℕ
rank_of t = priority_order t.priority

-- No two tasks have one identifier.
abbrev pub is_once : ReadyQueue → Bool
is_once [] = true
is_once (t ∷ q) = not (any (λ u. str_eq u.id t.id) q) && is_once q

pub record IsQueue (q : ReadyQueue) : Type 0 where
  pub once : is_once q ≡ true
  pub sorted : is_sorted rank_of q ≡ true

before-le : (a b : TaskNode) → sorts_before a b ≡ true → rank_of a ≤ rank_of b
unfolding sorts_before
before-le a b h = ground (arith, h)

behind-le : (a b : TaskNode) → sorts_before a b ≡ false → rank_of b ≤ rank_of a
unfolding sorts_before
behind-le a b h = ground (arith, h)

is_once-insert_by :
    (t : TaskNode) (q : ReadyQueue)
    → is_once q ≡ true
    → any (λ u. str_eq u.id t.id) q ≡ false
    → is_once (insert_by sorts_before t q) ≡ true
unfolding insert_by
is_once-insert_by t [] h fresh = refl
is_once-insert_by t (u ∷ q) h fresh = ground (
  arith,
  h,
  fresh,
  is_once-insert_by t q,
  eq_iff u.id t.id,
  eq_iff t.id u.id,
  any-insert_by sorts_before (λ v. str_eq v.id u.id) t q,
)

is_once-sort_by : (q : ReadyQueue) → is_once q ≡ true → is_once (sort_by sorts_before q) ≡ true
unfolding sort_by
is_once-sort_by [] h = refl
is_once-sort_by (t ∷ q) h =
    is_once-insert_by t (sort_by sorts_before q) (is_once-sort_by q (ground (arith, h)))
      (any-sort_by sorts_before (λ u. str_eq u.id t.id) q ∙ ground (arith, h))

is_once-snoc :
    (q : ReadyQueue) (t : TaskNode)
    → is_once q ≡ true
    → any (λ u. str_eq u.id t.id) q ≡ false
    → is_once (q ++ t ∷ []) ≡ true
is_once-snoc [] t h fresh = refl
is_once-snoc (u ∷ q) t h fresh = ground (
  arith,
  h,
  fresh,
  is_once-snoc q t,
  any-append (λ v. str_eq v.id u.id) q (t ∷ []),
  eq_iff u.id t.id,
  eq_iff t.id u.id,
)

-- A push that returns keeps the queue in order, and adds the task, which was not in it.
pub push_lem :
    (q : ReadyQueue) (t : TaskNode) (q' : ReadyQueue)
    → IsQueue q
    → push q t ≡ ok q'
    → IsQueue q'
      × (contains q t.id ≡ false)
      × ((k : String) → contains q' k ≡ (contains q k || str_eq t.id k))
unfolding push contains
push_lem q t q' v e =
    let (test, pushed) = >>-eq-ok (guard (not (contains q t.id)) _) _ e in
    let fresh : any (λ u. str_eq u.id t.id) q ≡ false =
      ground (arith, guard-eq-ok (not (contains q t.id)) _ test) in
    let same = ok-injective pushed in
    let known = is_once-sort_by (q ++ t ∷ []) (is_once-snoc q t v.once fresh) in
    let ordered = sort_by-is_sorted sorts_before rank_of before-le behind-le (q ++ t ∷ []) in
    (
      record {
        once = ap is_once (sym same) ∙ known;
        sorted = ap (is_sorted rank_of) (sym same) ∙ ordered;
      },
      fresh,
      λ k.
          ap (any (λ u. str_eq u.id k)) (sym same)
          ∙ any-sort_by sorts_before (λ u. str_eq u.id k) (q ++ t ∷ [])
          ∙ any-append (λ u. str_eq u.id k) q (t ∷ [])
          ∙ ground arith,
    )

-- What is left of a queue by a task that was taken out of it.
abbrev pub Popped : ReadyQueue → TaskNode × ReadyQueue → Type 0
Popped q (t, q') =
    IsQueue q'
    × (any (λ u. ltb (rank_of u) (rank_of t)) q' ≡ false)
    × (contains q' t.id ≡ false)
    × ((k : String) → contains q k ≡ (str_eq t.id k || contains q' k))

-- A pop that returns takes out a task of the highest priority in the queue, and the rest of the
-- queue stays in order.
pub pop_lem :
    (q : ReadyQueue) (t : TaskNode) (q' : ReadyQueue)
    → IsQueue q
    → pop q ≡ ok (t, q')
    → Popped q (t, q')
unfolding pop contains
pop_lem [] t q' v e = cc
pop_lem (u ∷ q) t q' v e = subst (Popped (u ∷ q)) (ok-injective e) (
  record { once = ground (arith, v.once); sorted = ground (arith, v.sorted) },
  ground (arith, v.sorted),
  ground (arith, v.once),
  λ k. refl,
)

any-remove :
    (p : TaskNode → Bool) (q : ReadyQueue) (k : String)
    → any p q ≡ false
    → any p (remove q k).1 ≡ false
unfolding remove
any-remove p [] k h = refl
any-remove p (t ∷ q) k h = ground (arith, h, any-remove p q k)

is_once-remove : (q : ReadyQueue) (k : String) → is_once q ≡ true → is_once (remove q k).1 ≡ true
unfolding remove
is_once-remove [] k h = refl
is_once-remove (t ∷ q) k h =
    ground (arith, h, is_once-remove q k, any-remove (λ u. str_eq u.id t.id) q k)

is_sorted-remove :
    (q : ReadyQueue) (k : String)
    → is_sorted rank_of q ≡ true
    → is_sorted rank_of (remove q k).1 ≡ true
unfolding remove
is_sorted-remove [] k h = refl
is_sorted-remove (t ∷ q) k h =
    ground (arith, h, is_sorted-remove q k, any-remove (λ u. ltb (rank_of u) (rank_of t)) q k)

is_removed : (q : ReadyQueue) (k : String) → (remove q k).0 ≡ contains q k
unfolding remove contains
is_removed [] k = refl
is_removed (t ∷ q) k = ground (arith, is_removed q k)

contains-remove :
    (q : ReadyQueue) (k : String)
    → is_once q ≡ true
    → (j : String) → contains (remove q k).1 j ≡ (contains q j && not (str_eq j k))
unfolding remove contains
contains-remove [] k h j = refl
contains-remove (t ∷ q) k h j = elim (Bool-cases (str_eq t.id k)) [
  | inl same ↦
      let e = (eq_iff t.id k).0 same in
      let absent : any (λ u. str_eq u.id k) q ≡ false =
        ap (λ i. any (λ u. str_eq u.id i) q) (sym e) ∙ ground (arith, h) in
      elim (Bool-cases (str_eq j k)) [
        | inl here ↦
            let there : any (λ u. str_eq u.id j) q ≡ false =
              ap (λ i. any (λ u. str_eq u.id i) q) ((eq_iff j k).0 here) ∙ absent in
            ground (arith, same, here, there)
        | inr away ↦ ground (arith, same, away, eq_iff t.id j, eq_iff j k, e)
      ]
  | inr other ↦ ground (
    arith,
    h,
    other,
    contains-remove q k (ground (arith, h)) j,
    eq_iff t.id j,
    eq_iff j k,
    eq_iff t.id k,
  )
]

-- A removal keeps the queue in order, answers whether the task was in it, and takes out that task
-- and no other.
pub remove_lem :
    (q : ReadyQueue) (k : String)
    → IsQueue q
    → let (removed, q') = remove q k in
      IsQueue q'
      × (removed ≡ contains q k)
      × ((j : String) → contains q' j ≡ (contains q j && not (str_eq j k)))
remove_lem q k v = (
  record { once = is_once-remove q k v.once; sorted = is_sorted-remove q k v.sorted },
  is_removed q k,
  contains-remove q k v.once,
)
