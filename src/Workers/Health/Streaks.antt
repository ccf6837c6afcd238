-- ===== src/Workers/Health/Streaks.antt =====
-- A worker's health is decided by its failures since its last success or recovery.
use text.Mathlib.Text.{◌==◌ as str_eq}
use text.Mathlib.TextEquality.{eq_iff}
use eag.Prelude.{
  ℕ, ◌+◌, ◌≤◌, ◌≡◌, refl, ap, List, [], ◌∷◌, String, leb, arith, Bool-cases, inl, inr,
  if◌then◌else◌,
}
use eag.Workers.Models.{Grade, healthy, degraded, unavailable}
use eag.Workers.Health.{Health, new, record_success, record_failure, get_health, recover}

-- What is reported to the manager.
pub data Report : Type 0 where
  success failure recovery : String → Report

abbrev pub apply : Health → Report → Health
apply h (success id) = record_success h id
apply h (failure id) = record_failure h id
apply h (recovery id) = recover h id

unfoldable pub run : Health → List Report → Health
run h [] = h
run h (r ∷ rs) = run (apply h r) rs

-- The failures of a worker since it last succeeded or recovered, after a count that is given.
unfoldable pub streak : String → ℕ → List Report → ℕ
streak id n [] = n
streak id n (success k ∷ rs) = streak id (if str_eq k id then 0 else n) rs
streak id n (failure k ∷ rs) = streak id (if str_eq k id then n + 1 else n) rs
streak id n (recovery k ∷ rs) = streak id (if str_eq k id then 0 else n) rs

abbrev pub grade : ℕ → ℕ → ℕ → Grade
grade degrade_threshold unavailable_threshold n =
    if leb unavailable_threshold n
    then unavailable
    else if leb degrade_threshold n
    then degraded
    else healthy

module _ (d u : ℕ) (some_d : 1 ≤ d) (some_u : 1 ≤ u) where
  -- The state of one worker's records.
  record Counts (h : Health) (id : String) (n : ℕ) : Type 0 where
    count : h.failure_counts id ≡ n
    graded : get_health h id ≡ grade d u n
    degrade : h.degrade_threshold ≡ d
    unavail : h.unavailable_threshold ≡ u

  apply-Counts :
      (h : Health) (id : String) (n : ℕ) (r : Report)
      → Counts h id n
      → Counts (apply h r) id (streak id n (r ∷ []))
  unfolding record_success record_failure recover get_health streak
  apply-Counts h id n (success k) c = ground arith
  apply-Counts h id n (failure k) c = elim (Bool-cases (str_eq k id)) [
    | inl same ↦ ground (arith, same, ap h.failure_counts ((eq_iff k id).0 same))
    | inr other ↦ ground (arith, other)
  ]
  apply-Counts h id n (recovery k) c = ground arith

  run-Counts :
      (h : Health) (id : String) (n : ℕ) (rs : List Report)
      → Counts h id n
      → Counts (run h rs) id (streak id n rs)
  unfolding run streak
  run-Counts h id n [] c = c
  run-Counts h id n (success k ∷ rs) c =
      run-Counts (record_success h k) id _ rs (apply-Counts h id n (success k) c)
  run-Counts h id n (failure k ∷ rs) c =
      run-Counts (record_failure h k) id _ rs (apply-Counts h id n (failure k) c)
  run-Counts h id n (recovery k ∷ rs) c =
      run-Counts (recover h k) id _ rs (apply-Counts h id n (recovery k) c)

  -- With thresholds of at least one, whatever was reported to a new manager, a worker is unavailable or degraded exactly if its failures since its
  -- last success or recovery reach the threshold for it.
  pub get_health-streak :
      (id : String) (rs : List Report)
      → get_health (run (new d u) rs) id ≡ grade d u (streak id 0 rs)
  unfolding get_health
  get_health-streak id rs =
      (run-Counts (new d u) id 0 rs
        (record { count = refl; graded = ground arith; degrade = refl; unavail = refl })).graded
