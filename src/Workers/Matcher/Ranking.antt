-- ===== src/Workers/Matcher/Ranking.antt =====
-- The worker that `best_worker` answers, against the scores of all.
use text.Mathlib.Text.{◌==◌ as str_eq}
use text.Mathlib.TextEquality.{eq_iff}
use mathlib.Core.Path.{subst}
use mathlib.Core.List.{Memᴰ}
use text.Mathlib.TextPositions.{eq_refl}
use eag.Prelude.{
  ℕ, ◌≤◌, ◌≡◌, refl, sym, ap, ◌∙◌, Bool, true, false, not, ◌&&◌, Option, none, some, List, [], ◌∷◌,
  String, map, keep, ltb, any, Bool-cases, inl, inr, arith,
}
use eag.Prelude.Sorting.{sort_by, insert_by, any-insert_by, any-sort_by}
use eag.Workers.Models.{Profile, Task}
use eag.Workers.Matcher.Origin.{can_do, score-pos, Earned, rank-Earned, worker_with-Memᴰ}
use eag.Workers.Matcher.{
  CapabilityScore, score, rank, ranks_before, worker_with, pair_with, best_worker,
}

abbrev pub above : ℕ → CapabilityScore → Bool
above n s = ltb n s.score

-- The first score of a list is the highest.
abbrev is_topped : List CapabilityScore → Bool
is_topped [] = true
is_topped (s ∷ l) = not (any (above s.score) l)

above-any :
    (m n : ℕ) (l : List CapabilityScore) → n ≤ m → any (above n) l ≡ false → any (above m) l ≡ false
above-any m n [] le h = refl
above-any m n (s ∷ l) le h = ground (arith, le, h, above-any m n l le)

is_topped-insert_by :
    (a : CapabilityScore) (l : List CapabilityScore)
    → is_topped l ≡ true
    → is_topped (insert_by ranks_before a l) ≡ true
unfolding insert_by
is_topped-insert_by a [] h = refl
is_topped-insert_by a (b ∷ l) h = elim (Bool-cases (ranks_before a b)) [
  | inl before ↦ ground (arith, before, h, above-any a.score b.score l)
  | inr behind ↦ ground (arith, behind, h, any-insert_by ranks_before (above b.score) a l)
]

is_topped-sort_by : (l : List CapabilityScore) → is_topped (sort_by ranks_before l) ≡ true
unfolding sort_by
is_topped-sort_by [] = refl
is_topped-sort_by (s ∷ l) = is_topped-insert_by s (sort_by ranks_before l) (is_topped-sort_by l)

any_all_scores :
    (p : CapabilityScore → Bool) (t : Task) (ws : List Profile)
    → str_eq t.required_capability "" ≡ true
    → any p (map (λ w. score w t) ws) ≡ any (λ w. can_do t w && p (score w t)) ws
any_all_scores p t [] free = refl
any_all_scores p t (w ∷ ws) free = ground (arith, free, any_all_scores p t ws free)

any_kept_scores :
    (p : CapabilityScore → Bool) (t : Task) (ws : List Profile)
    → str_eq t.required_capability "" ≡ false
    → any p (keep (λ s. ltb 0 s.score) (map (λ w. score w t) ws))
      ≡ any (λ w. can_do t w && p (score w t)) ws
any_kept_scores p t [] asks = refl
any_kept_scores p t (w ∷ ws) asks =
    ground (arith, asks, score-pos w t asks, any_kept_scores p t ws asks)

-- The ranking holds the scores of the workers that can do the task.
any-rank :
    (p : CapabilityScore → Bool) (t : Task) (ws : List Profile)
    → any p (rank ws t) ≡ any (λ w. can_do t w && p (score w t)) ws
unfolding rank
any-rank p t ws =
    any-sort_by ranks_before p _ ∙ elim (Bool-cases (str_eq t.required_capability "")) [
      | inl free ↦ ground (arith, free, any_all_scores p t ws free)
      | inr asks ↦ ground (arith, asks, any_kept_scores p t ws asks)
    ]

is_topped-rank : (t : Task) (ws : List Profile) → is_topped (rank ws t) ≡ true
unfolding rank
is_topped-rank t ws = is_topped-sort_by _

worker_with-some :
    (k : String) (p : Profile → Bool) (ws : List Profile)
    → any (λ w. p w && str_eq w.id k) ws ≡ true
    → (w : Profile) × (worker_with k ws ≡ some w) × (w.id ≡ k)
unfolding worker_with
worker_with-some k p [] h = cc
worker_with-some k p (w ∷ ws) h = elim (Bool-cases (str_eq w.id k)) [
  | inl same ↦ (w, ground (arith, same), (eq_iff w.id k).0 same)
  | inr other ↦
      let (v, found, named) = worker_with-some k p ws (ground (arith, h, other)) in
      (v, ground (arith, other, found), named)
]

-- What a best worker and its score promise: the score is the one that a worker of the list who can
-- do the task earns, and the worker is the first of the list with the identifier of that one.
pub record IsTop (ws : List Profile) (t : Task) (w : Profile) (s : CapabilityScore) : Type 0 where
  pub earned : Earned ws t s
  pub named : earned.earner.id ≡ w.id
  pub listed : Memᴰ w ws
  pub first : worker_with w.id ws ≡ some w
  pub highest : any (λ v. can_do t v && above s.score (score v t)) ws ≡ false

abbrev pub IsMatch : List Profile → Task → Option (Profile × CapabilityScore) → Type 0
IsMatch ws t none = any (can_do t) ws ≡ false
IsMatch ws t (some (w, s)) = IsTop ws t w s

score-worker_id : (w : Profile) (t : Task) → (score w t).worker_id ≡ w.id
unfolding score
score-worker_id w t = ground arith

any_named :
    (k : String) (t : Task) (ws : List Profile)
    → any (λ w. can_do t w && str_eq (score w t).worker_id k) ws
      ≡ any (λ w. can_do t w && str_eq w.id k) ws
any_named k t [] = refl
any_named k t (w ∷ ws) = ground (arith, any_named k t ws, score-worker_id w t)

any-can_do :
    (t : Task) (ws : List Profile)
    → any (λ w. can_do t w && true) ws ≡ false
    → any (can_do t) ws ≡ false
any-can_do t [] h = refl
any-can_do t (w ∷ ws) h = ground (arith, h, any-can_do t ws)

rank-IsMatch :
    (t : Task) (ws : List Profile) (l : List CapabilityScore)
    → rank ws t ≡ l
    → IsMatch ws t (elim l [ [] ↦ none | s ∷ rest ↦ pair_with ws s ])
rank-IsMatch t ws [] e = any-can_do t ws (sym (any-rank (λ s. true) t ws) ∙ ap (any (λ s. true)) e)
rank-IsMatch t ws (s ∷ rest) e =
    let named : any (λ w. can_do t w && str_eq w.id s.worker_id) ws ≡ true =
      sym (any_named s.worker_id t ws)
      ∙ sym (any-rank (λ r. str_eq r.worker_id s.worker_id) t ws)
      ∙ ap (any (λ r. str_eq r.worker_id s.worker_id)) e
      ∙ ground (arith, eq_refl s.worker_id) in
    let (w, found, scored) = worker_with-some s.worker_id (can_do t) ws named in
    let top : any (above s.score) (s ∷ rest) ≡ false =
      ground (arith, sym (ap is_topped e) ∙ is_topped-rank t ws) in
    let e₁ = rank-Earned t ws s (subst (Memᴰ s) (sym e) (Memᴰ.head refl)) in
    subst (IsMatch ws t) (ap (λ o. elim o [ none ↦ none | some v ↦ some (v, s) ]) (sym found))
      (record {
        earned = e₁;
        named =
            sym (score-worker_id e₁.earner t) ∙ sym (ap (λ r. r.worker_id) e₁.earned) ∙ sym scored;
        listed = worker_with-Memᴰ s.worker_id ws w found;
        first = ap (λ k. worker_with k ws) scored ∙ found;
        highest = sym (any-rank (above s.score) t ws) ∙ ap (any (above s.score)) e ∙ top;
      })

-- The best worker comes with the score that a worker of the list who can do the task earns, and it
-- is the first one of the list with the identifier of that worker; no worker that can do the task
-- has a higher score. Where there is no best worker, no worker can do the task.
pub best_worker_lem : (ws : List Profile) (t : Task) → IsMatch ws t (best_worker ws t)
unfolding best_worker
best_worker_lem ws t = rank-IsMatch t ws (rank ws t) refl
