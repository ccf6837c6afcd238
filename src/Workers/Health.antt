-- ===== src/Workers/Health.antt =====
-- src/eag/workers/health.py. The two dictionaries are functions.
pub mod Streaks
use text.Mathlib.Text.{◌==◌ as str_eq}
use eag.Prelude.{
  ℕ, zero, suc, ◌+◌, Bool, true, false, Option, none, some, List, [], ◌∷◌, String, leb,
  if◌then◌else◌,
}
use eag.Workers.Models.{Grade, healthy, busy, degraded, unavailable}

pub record Health : Type 0 where
  pub health : String → Option Grade
  pub failure_counts : String → ℕ
  pub degrade_threshold : ℕ
  pub unavailable_threshold : ℕ

abbrev pub new : ℕ → ℕ → Health
new degrade_threshold unavailable_threshold = record {
  health = λ k. none;
  failure_counts = λ k. 0;
  degrade_threshold = degrade_threshold;
  unavailable_threshold = unavailable_threshold;
}

-- `dict[key] = value`
abbrev pub update {ℓ} : {A : Type ℓ} → (String → A) → String → A → String → A
update f k v j = if str_eq k j then v else f j

unfoldable pub record_success : Health → String → Health
record_success h id = record h {
  failure_counts = update h.failure_counts id 0;
  health = update h.health id (some healthy);
}

unfoldable pub record_failure : Health → String → Health
record_failure h id =
    let count = h.failure_counts id + 1 in
    let counted = record h { failure_counts = update h.failure_counts id count } in
    if leb h.unavailable_threshold count
    then record counted { health = update h.health id (some unavailable) }
    else if leb h.degrade_threshold count
    then record counted { health = update h.health id (some degraded) }
    else counted

unfoldable pub get_health : Health → String → Grade
get_health h id = elim (h.health id) [ none ↦ healthy | some g ↦ g ]

unfoldable pub recover : Health → String → Health
recover h id = record h {
  health = update h.health id (some healthy);
  failure_counts = update h.failure_counts id 0;
}
