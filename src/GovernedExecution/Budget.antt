-- ===== src/GovernedExecution/Budget.antt =====
-- `ExecutionBudget` of src/eag/governed_execution/models.py. A budget is made by `make` alone, the
-- model of `__post_init__`; the limits and counters of a made budget are natural numbers.
use eag.Prelude.Int.{ℤ, pos, negsuc, sub_ℕ, is_zero}
use eag.Prelude.{
  ℕ, zero, suc, ◌+◌, ◌≤◌, ◌≡◌, Result, ok, err, ◌>>=◌, ◌>>◌, guard, leb, arith, if◌then◌else◌,
}
use eag.GovernedExecution.Failure.{
  Failure, Field, max_iterations, max_mutations, max_verifications, iterations_used, mutations_used,
  verifications_used, not_positive, not_non_negative, iterations_over, mutations_over,
  verifications_over, iteration_exhausted, mutation_exhausted, verification_exhausted,
}

pub record Budget : Type 0 where
  pub max_iterations : ℕ
  pub max_mutations : ℕ
  pub max_verifications : ℕ
  pub iterations_used : ℕ
  pub mutations_used : ℕ
  pub verifications_used : ℕ

positive : Field → ℤ → Result Failure ℕ
positive field (pos zero) = err (not_positive field)
positive field (pos (suc n)) = ok (suc n)
positive field (negsuc n) = err (not_positive field)

non_negative : Field → ℤ → Result Failure ℕ
non_negative field (pos n) = ok n
non_negative field (negsuc n) = err (not_non_negative field)

-- `__post_init__`
unfoldable pub make : ℤ → ℤ → ℤ → ℤ → ℤ → ℤ → Result Failure Budget
unfolding positive non_negative
make iterations mutations verifications used_iterations used_mutations used_verifications = do
  i ← positive max_iterations iterations
  m ← positive max_mutations mutations
  v ← positive max_verifications verifications
  i' ← non_negative iterations_used used_iterations
  m' ← non_negative mutations_used used_mutations
  v' ← non_negative verifications_used used_verifications
  guard (leb i' i) iterations_over
  guard (leb m' m) mutations_over
  guard (leb v' v) verifications_over
  ok (record {
    max_iterations = i;
    max_mutations = m;
    max_verifications = v;
    iterations_used = i';
    mutations_used = m';
    verifications_used = v';
  })

-- What `make` establishes.
pub record IsValid (b : Budget) : Type 0 where
  pub some_iterations : 1 ≤ b.max_iterations
  pub some_mutations : 1 ≤ b.max_mutations
  pub some_verifications : 1 ≤ b.max_verifications
  pub iterations_within : b.iterations_used ≤ b.max_iterations
  pub mutations_within : b.mutations_used ≤ b.max_mutations
  pub verifications_within : b.verifications_used ≤ b.max_verifications

unfoldable pub iterations_remaining : Budget → ℤ
iterations_remaining b = sub_ℕ b.max_iterations b.iterations_used

unfoldable pub mutations_remaining : Budget → ℤ
mutations_remaining b = sub_ℕ b.max_mutations b.mutations_used

unfoldable pub verifications_remaining : Budget → ℤ
verifications_remaining b = sub_ℕ b.max_verifications b.verifications_used

remake : Budget → ℕ → ℕ → ℕ → Result Failure Budget
unfolding make
remake b i m v =
    make (pos b.max_iterations) (pos b.max_mutations) (pos b.max_verifications) (pos i) (pos m)
      (pos v)

unfoldable pub consume_iteration : Budget → Result Failure Budget
unfolding remake iterations_remaining
consume_iteration b =
    if is_zero (iterations_remaining b)
    then err iteration_exhausted
    else remake b (b.iterations_used + 1) b.mutations_used b.verifications_used

unfoldable pub consume_mutation : Budget → Result Failure Budget
unfolding remake mutations_remaining
consume_mutation b =
    if is_zero (mutations_remaining b)
    then err mutation_exhausted
    else remake b b.iterations_used (b.mutations_used + 1) b.verifications_used

unfoldable pub consume_verification : Budget → Result Failure Budget
unfolding remake verifications_remaining
consume_verification b =
    if is_zero (verifications_remaining b)
    then err verification_exhausted
    else remake b b.iterations_used b.mutations_used (b.verifications_used + 1)

remake_lem :
    (b : Budget) (i m v : ℕ)
    → IsValid b
    → i ≤ b.max_iterations
    → m ≤ b.max_mutations
    → v ≤ b.max_verifications
    → remake b i m v
      ≡ ok (record b { iterations_used = i; mutations_used = m; verifications_used = v })
unfolding remake
remake_lem b i m v valid hi hm hv = ground arith

-- A made budget counts one more entry below its limit, and raises at the limit.
module _ (b : Budget) (valid : IsValid b) where
  pub consume_iteration_lem : consume_iteration b ≡ (
      if leb b.max_iterations b.iterations_used
      then err iteration_exhausted
      else ok (record b { iterations_used = b.iterations_used + 1 }))
  unfolding consume_iteration
  consume_iteration_lem = ground arith

  pub consume_mutation_lem : consume_mutation b ≡ (
      if leb b.max_mutations b.mutations_used
      then err mutation_exhausted
      else ok (record b { mutations_used = b.mutations_used + 1 }))
  unfolding consume_mutation
  consume_mutation_lem = ground arith

  pub consume_verification_lem : consume_verification b ≡ (
      if leb b.max_verifications b.verifications_used
      then err verification_exhausted
      else ok (record b { verifications_used = b.verifications_used + 1 }))
  unfolding consume_verification
  consume_verification_lem = ground arith

-- Whatever integers are given, a budget that is made has positive limits and counters within them.
pub make-IsValid : (i m v i' m' v' : ℤ) (b : Budget) → make i m v i' m' v' ≡ ok b → IsValid b
unfolding make
make-IsValid i m v i' m' v' b h = ground arith
