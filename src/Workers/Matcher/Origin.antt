-- ===== src/Workers/Matcher/Origin.antt =====
-- Whose scores the ranking of src/eag/workers/matcher.py holds.
use text.Mathlib.Text.{◌==◌ as str_eq}
use mathlib.Core.Path.{subst}
use mathlib.Core.Option.{some_inj}
use mathlib.Core.List.{Memᴰ}
use mathlib.Core.List.Memᴰ
use eag.Prelude.{
  ◌≡◌, refl, sym, ap, ◌∙◌, ◌⊎◌, Bool, true, false, ◌||◌, List, [], ◌∷◌, String, some, map, keep,
  ltb, Bool-cases, inl, inr, arith,
}
use eag.Prelude.Keys.{elem}
use eag.Prelude.Sorting.{sort_by, insert_by}
use eag.Workers.Models.{Profile, Task}
use eag.Workers.Matcher.{CapabilityScore, score, points, rank, ranks_before, worker_with}

-- A worker has the capability that the task requires, where it requires one.
abbrev pub can_do : Task → Profile → Bool
can_do t w = str_eq t.required_capability "" || elem t.required_capability w.capabilities

pub score-pos :
    (w : Profile) (t : Task)
    → str_eq t.required_capability "" ≡ false
    → ltb 0 (score w t).score ≡ elem t.required_capability w.capabilities
unfolding score points
score-pos w t asks = ground (arith, asks)

module _ {A : Type 0} (x : A) where
  Memᴰ-insert_by :
      (le : A → A → Bool) (a : A) (l : List A) → Memᴰ x (insert_by le a l) → (x ≡ a) ⊎ Memᴰ x l
  unfolding insert_by
  Memᴰ-insert_by le a [] = λ h. inl (Memᴰ.eq_of_singleton h)
  Memᴰ-insert_by le a (b ∷ l) = elim (Bool-cases (le a b)) [
    | inl before ↦ rw (before, insert_by) (λ h. Memᴰ.cases_cons h)
    | inr behind ↦
        rw (behind, insert_by)
          (λ h. elim (Memᴰ.cases_cons h) [
            | inl first ↦ inr (Memᴰ.head first)
            | inr more ↦ elim (Memᴰ-insert_by le a l more) [
              | inl same ↦ inl same
              | inr rest ↦ inr (Memᴰ.tail rest)
            ]
          ])
  ]

  Memᴰ-sort_by : (le : A → A → Bool) (l : List A) → Memᴰ x (sort_by le l) → Memᴰ x l
  unfolding sort_by
  Memᴰ-sort_by le [] h = h
  Memᴰ-sort_by le (a ∷ l) h = elim (Memᴰ-insert_by le a (sort_by le l) h) [
    | inl first ↦ Memᴰ.head first
    | inr more ↦ Memᴰ.tail (Memᴰ-sort_by le l more)
  ]

  Memᴰ-keep : (p : A → Bool) (l : List A) → Memᴰ x (keep p l) → Memᴰ x l × (p x ≡ true)
  Memᴰ-keep p [] = λ h. absurd (Memᴰ.not-nil h)
  Memᴰ-keep p (a ∷ l) = elim (Bool-cases (p a)) [
    | inl good ↦
        rw (good, keep)
          (λ h. elim (Memᴰ.cases_cons h) [
            | inl first ↦ (Memᴰ.head first, ap p first ∙ good)
            | inr more ↦ let (there, passed) = Memᴰ-keep p l more in (Memᴰ.tail there, passed)
          ])
    | inr bad ↦
        rw (bad, keep) (λ h. let (there, passed) = Memᴰ-keep p l h in (Memᴰ.tail there, passed))
  ]

-- A worker of the list that can do the task, whose score this is.
pub record Earned (ws : List Profile) (t : Task) (s : CapabilityScore) : Type 0 where
  pub earner : Profile
  pub listed : Memᴰ earner ws
  pub able : can_do t earner ≡ true
  pub earned : s ≡ score earner t

Memᴰ-scores :
    (t : Task) (ws : List Profile) (s : CapabilityScore)
    → Memᴰ s (map (λ w. score w t) ws)
    → (v : Profile) × Memᴰ v ws × (s ≡ score v t)
Memᴰ-scores t [] s h = absurd (Memᴰ.not-nil h)
Memᴰ-scores t (w ∷ ws) s h = elim (Memᴰ.cases_cons h) [
  | inl first ↦ (w, Memᴰ.head refl, first)
  | inr more ↦ let (v, there, e) = Memᴰ-scores t ws s more in (v, Memᴰ.tail there, e)
]

pub rank-Earned :
    (t : Task) (ws : List Profile) (s : CapabilityScore) → Memᴰ s (rank ws t) → Earned ws t s
unfolding rank
rank-Earned t ws s h =
    let there = Memᴰ-sort_by s ranks_before _ h in
    elim (Bool-cases (str_eq t.required_capability "")) [
      | inl free ↦
          let (v, listed, e) = Memᴰ-scores t ws s (subst (Memᴰ s) (ground (arith, free)) there) in
          record { earner = v; listed = listed; able = ground (arith, free); earned = e }
      | inr asks ↦
          let (kept, good) =
            Memᴰ-keep s (λ r. ltb 0 r.score) (map (λ w. score w t) ws)
              (subst (Memᴰ s) (ground (arith, asks)) there) in
          let (v, listed, e) = Memᴰ-scores t ws s kept in
          record {
            earner = v;
            listed = listed;
            able = ground (arith, asks, score-pos v t asks, sym (ap (λ r. ltb 0 r.score) e) ∙ good);
            earned = e;
          }
    ]

pub worker_with-Memᴰ :
    (k : String) (ws : List Profile) (w : Profile) → worker_with k ws ≡ some w → Memᴰ w ws
unfolding worker_with
worker_with-Memᴰ k [] w = λ h. cc
worker_with-Memᴰ k (v ∷ ws) w = elim (Bool-cases (str_eq v.id k)) [
  | inl same ↦ rw (same, worker_with) (λ h. Memᴰ.head (sym (some_inj.0 h)))
  | inr other ↦ rw (other, worker_with) (λ h. Memᴰ.tail (worker_with-Memᴰ k ws w h))
]
