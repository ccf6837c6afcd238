-- ===== src/Workers/Manager/Preference.antt =====
-- The choice of `find_best_worker` among the workers that it has collected.
use text.Mathlib.Text.{◌==◌ as str_eq}
use mathlib.Core.Path.{subst}
use mathlib.Core.Option.{some_inj}
use eag.Prelude.{
  ◌≡◌, ◌≢◌, refl, ap, ◌∙◌, Bool, true, false, not, ◌&&◌, Option, none, some, List, [], ◌∷◌, String,
  keep, arith, Bool-cases, Option-cases, inl, inr, any, all,
}
use eag.Prelude.Keys.{elem}
use eag.Workers.Models.{Profile}
use eag.Workers.Manager.{first, or_else, choose}

abbrev pub prefers : String → Profile → Bool
prefers capability w = elem capability w.preferred_capabilities

-- A worker that every test passes whenever some item of the list does.
pub record Among (l : List Profile) (w : Profile) : Type 0 where
  pub one : (r : Profile → Bool) → all r l ≡ true → r w ≡ true
  pub same : (r : Profile → Bool) → r w ≡ true → any r l ≡ true

Among-head : (v : Profile) (l : List Profile) → Among (v ∷ l) v
Among-head v l = record { one = λ r t. ground (arith, t); same = λ r t. ground (arith, t) }

Among-tail : (v : Profile) {l : List Profile} {w : Profile} → Among l w → Among (v ∷ l) w
Among-tail v a = record {
  one = λ r t. a.one r (ground (arith, t));
  same = λ r t. ground (arith, a.same r t);
}

first-Among : (l : List Profile) {w : Profile} → first l ≡ some w → Among l w
first-Among [] h = cc
first-Among (v ∷ l) h = subst (Among (v ∷ l)) (some_inj.0 h) (Among-head v l)

pub all-keep : (p : Profile → Bool) (l : List Profile) → all p (keep p l) ≡ true
all-keep p [] = refl
all-keep p (v ∷ l) = ground (arith, all-keep p l)

all-keep_other :
    (r p : Profile → Bool) (l : List Profile) → all r l ≡ true → all r (keep p l) ≡ true
all-keep_other r p [] h = refl
all-keep_other r p (v ∷ l) h = ground (arith, all-keep_other r p l)

first-keep-none :
    (p : Profile → Bool) (l : List Profile) → first (keep p l) ≡ none → any p l ≡ false
first-keep-none p [] h = refl
first-keep-none p (v ∷ l) h = ground (arith, first-keep-none p l, h)

any_of_keep : (p r : Profile → Bool) (l : List Profile) → any r (keep p l) ≡ true → any r l ≡ true
any_of_keep p r [] h = h
any_of_keep p r (v ∷ l) h = ground (arith, any_of_keep p r l, h)

pub Among-keep :
    (p : Profile → Bool) (l : List Profile) {w : Profile} → Among (keep p l) w → Among l w
Among-keep p l a = record {
  one = λ r t. a.one r (all-keep_other r p l t);
  same = λ r t. any_of_keep p r l (a.same r t);
}

-- The choice of a worker among the available ones.
pub record Chosen (capability : String) (l : List Profile) (w : Profile) : Type 0 where
  pub among : Among l w
  pub preferred :
      (any (prefers capability) l && not (str_eq capability "")) ≡ true
      → prefers capability w ≡ true

pub choose-Chosen :
    (c : String) (l : List Profile) {w : Profile} → choose c l ≡ some w → Chosen c l w
unfolding choose
choose-Chosen c l {w} h = elim (Bool-cases (str_eq c "")) [
  | inl any_task ↦ record {
    among = first-Among l (ground (arith, any_task, h));
    preferred = λ t. ground (arith, any_task, t);
  }
  | inr needs ↦ elim (Option-cases (first (keep (prefers c) l))) [
    | inl nobody ↦ record {
      among = first-Among l (ground (arith, nobody, needs, h));
      preferred = λ t. ground (arith, first-keep-none (prefers c) l nobody, t);
    }
    | inr (v, found) ↦
        let e : v ≡ w = ground (arith, found, needs, h) in
        let a = first-Among (keep (prefers c) l) (found ∙ ap some e) in
        record {
          among = Among-keep (prefers c) l a;
          preferred = λ t. a.one (prefers c) (all-keep (prefers c) l);
        }
  ]
]

or_else-some : (o : Option Profile) (v : Profile) → or_else o (some v) ≢ none
or_else-some none v h = cc
or_else-some (some u) v h = cc

pub choose-none : (c : String) (l : List Profile) → choose c l ≡ none → l ≡ []
unfolding choose
choose-none c [] h = refl
choose-none c (v ∷ l) h = ground (arith, h, or_else-some (first (keep (prefers c) (v ∷ l))) v)
