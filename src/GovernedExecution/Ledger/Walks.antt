-- ===== src/GovernedExecution/Ledger/Walks.antt =====
-- Lemmas on the loop of `_validate_history`: one round, one more record, the last record.
use native.Mathlib.Nat.{add-zero}
use eag.Prelude.{
  ◌≢◌, ℕ, ◌+◌, ◌≡◌, refl, ap, sym, ◌∙◌, true, false, Option, none, List, [], ◌∷◌, ◌++◌, arith,
  Result, ok, err, ◌>>=◌, >>=-eq-ok, length,
}
use eag.GovernedExecution.State.{
  State, created, context_assembling, mutating, verifying, StopReason, same_state, is_legal,
  same_state→eq, same_state_refl, legal-not_terminal,
}
use eag.GovernedExecution.Reason.{validate_terminal_stop_reason}
use eag.GovernedExecution.Failure.{Failure}
use eag.GovernedExecution.Ledger.{Record, Context, Walk, start, count_if, check_record, walk, final}

abbrev pub step_walk : Walk → Record → Walk
step_walk w r = record {
  state = r.to_state;
  iteration = count_if (same_state r.to_state context_assembling) w.iteration;
  mutations = count_if (same_state r.to_state mutating) w.mutations;
  verifications = count_if (same_state r.to_state verifying) w.verifications;
  evidence = w.evidence ++ r.evidence;
}

-- What one round of the loop demands of a record.
pub record Follows (n : ℕ) (w : Walk) (r : Record) : Type 0 where
  pub sequence : r.sequence ≡ n
  pub from_state : r.from_state ≡ w.state
  pub legal : is_legal r.from_state r.to_state ≡ true
  pub iteration : r.iteration ≡ count_if (same_state r.to_state context_assembling) w.iteration
  pub reason : validate_terminal_stop_reason r.to_state r.reason ≡ ok tt

module _ (n : ℕ) (w : Walk) (r : Record) where
  pub check_record-Follows :
      (w' : Walk) → check_record n w r ≡ ok w' → Follows n w r × (w' ≡ step_walk w r)
  unfolding check_record
  check_record-Follows w' h = ground (arith, same_state→eq r.from_state w.state)

  pub Follows-check_record : Follows n w r → check_record n w r ≡ ok (step_walk w r)
  unfolding check_record
  Follows-check_record f =
      ground (arith, same_state_refl w.state, legal-not_terminal r.from_state r.to_state)

>>=-ok : (m : Result Failure Walk) → (m >>= (λ w. ok w)) ≡ m
>>=-ok (ok w) = refl
>>=-ok (err e) = refl

-- The loop over one more record is one more round.
pub walk-append :
    (n : ℕ) (w : Walk) (rs : List Record) (r : Record) (w' : Walk)
    → walk n w rs ≡ ok w'
    → walk n w (rs ++ r ∷ []) ≡ check_record (n + length rs) w' r
unfolding walk
walk-append n w [] r w' h = >>=-ok (check_record n w r) ∙ ground (arith, add-zero n)
walk-append n w (s ∷ rs) r w' h =
    let (w₁, first, rest) = >>=-eq-ok (check_record n w s) (λ v. walk (n + 1) v rs) h in
    rw first (walk-append (n + 1) w₁ rs r w' rest ∙ ap (λ k. check_record k w' r) (omega arith))

pub walk-append_inv :
    (n : ℕ) (w : Walk) (rs : List Record) (r : Record) (w' : Walk)
    → walk n w (rs ++ r ∷ []) ≡ ok w'
    → (v : Walk) × (walk n w rs ≡ ok v) × (check_record (n + length rs) v r ≡ ok w')
unfolding walk
walk-append_inv n w [] r w' h =
    (w, refl, ap (λ k. check_record k w r) (add-zero n) ∙ sym (>>=-ok (check_record n w r)) ∙ h)
walk-append_inv n w (s ∷ rs) r w' h =
    let (w₁, first, rest) = >>=-eq-ok (check_record n w s) (λ v. walk (n + 1) v (rs ++ r ∷ [])) h in
    let (v, before, last) = walk-append_inv (n + 1) w₁ rs r w' rest in
    (
      v,
      ap (λ m. m >>= (λ u. walk (n + 1) u rs)) first ∙ before,
      ap (λ k. check_record k v r) (omega arith) ∙ last,
    )

-- The sums that a context states of its own history.
abbrev pub summary : Context → Walk
summary c = record {
  state = c.state;
  iteration = c.iteration;
  mutations = c.budget.mutations_used;
  verifications = c.budget.verifications_used;
  evidence = c.evidence;
}

-- The reason of the last record.
abbrev pub reason_of : List Record → Option StopReason
reason_of [] = none
reason_of (r ∷ rs) = (final r rs).reason

pub final-append : (s r : Record) (rs : List Record) → final s (rs ++ r ∷ []) ≡ r
final-append s r [] = refl
final-append s r (t ∷ rs) = final-append t r rs

pub reason_of-append : (rs : List Record) (r : Record) → reason_of (rs ++ r ∷ []) ≡ r.reason
reason_of-append [] r = refl
reason_of-append (s ∷ rs) r = ap (λ t. t.reason) (final-append s r rs)

-- A walk's last record names the state that the walk ends in, and its reason fits that state.
pub walk-final :
    (n : ℕ) (w : Walk) (r : Record) (rs : List Record) (w' : Walk)
    → walk n w (r ∷ rs) ≡ ok w'
    → validate_terminal_stop_reason w'.state (final r rs).reason ≡ ok tt
unfolding walk
walk-final n w r [] w' h =
    ground (arith, >>=-ok (check_record n w r), check_record-Follows n w r w')
walk-final n w r (s ∷ rs) w' h =
    let (w₁, first, rest) = >>=-eq-ok (check_record n w r) (λ v. walk (n + 1) v (s ∷ rs)) h in
    walk-final (n + 1) w₁ s rs w' rest

-- No transition leads to `created`, so a walk that ends there has met no record.
not_legal-created : (s : State) → is_legal s created ≡ false
unfolding is_legal
not_legal-created created = refl
not_legal-created _ = refl

walk-ne-created :
    (n : ℕ) (w : Walk) (r : Record) (rs : List Record) (w' : Walk)
    → walk n w (r ∷ rs) ≡ ok w'
    → w'.state ≢ created
unfolding walk
walk-ne-created n w r [] w' h e = ground (
  arith,
  >>=-ok (check_record n w r),
  check_record-Follows n w r w',
  not_legal-created r.from_state,
)
walk-ne-created n w r (s ∷ rs) w' h e =
    let (w₁, first, rest) = >>=-eq-ok (check_record n w r) (λ v. walk (n + 1) v (s ∷ rs)) h in
    walk-ne-created (n + 1) w₁ s rs w' rest e

pub walk-created :
    (rs : List Record) (w : Walk) → walk 1 start rs ≡ ok w → w.state ≡ created → w ≡ start
unfolding walk
walk-created [] w h e = ground arith
walk-created (r ∷ rs) w h e = absurd (walk-ne-created 1 start r rs w h e)
