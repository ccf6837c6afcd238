-- ===== src/Workers/Delegation.antt =====
-- src/eag/workers/delegation.py.
use mathlib.Core.Path.{subst}
use eag.Prelude.{
  ◌≡◌, sym, ap, ◌∙◌, ◌&&◌, Option, List, [], ◌∷◌, Result, ok, ◌>>=◌, keep, arith, ok-injective,
  >>=-eq-ok, if◌then◌else◌,
}
use eag.Workers.Models.{Profile, Task}
use eag.Workers.Health.{Health, get_health}
use eag.Workers.Registry.{WorkerError, workers, usable}
use eag.Workers.Manager.{Manager, get_instance, get_state, is_idle}
use eag.Workers.Manager.Assignment.{
  state_of, Agrees, Agrees-trans, get_instance_lem, is_available, is_available-Agrees,
}
use eag.Workers.Matcher.{CapabilityScore, best_worker}
use eag.Workers.Matcher.Ranking.{IsMatch, best_worker_lem}

-- The loop over the registry's workers.
unfoldable pub available_workers :
    Health → Manager → List Profile → Result WorkerError (List Profile × Manager)
available_workers h m [] = ok ([], m)
available_workers h m (w ∷ ws) = do
  (state, m₁) ← get_state m w.id
  (rest, m₂) ← available_workers h m₁ ws
  ok (if is_idle state && usable (get_health h w.id) then w ∷ rest else rest, m₂)

unfoldable pub delegate :
    Health → Manager → Task → Result WorkerError (Option (Profile × CapabilityScore) × Manager)
delegate h m t = do (ws, m₁) ← available_workers h m (workers m.registry); ok (best_worker ws t, m₁)

available_workers_lem :
    (h : Health) (m : Manager) (ws : List Profile) (l : List Profile) (m' : Manager)
    → available_workers h m ws ≡ ok (l, m')
    → (l ≡ keep (is_available h m) ws) × Agrees m m'
unfolding available_workers get_state
available_workers_lem h m [] l m' e =
    (ground (arith, e), record { registry = ground (arith, e); states = λ k. ground (arith, e) })
available_workers_lem h m (w ∷ ws) l m' e =
    let ((state, m₁), read, e₁) = >>=-eq-ok (get_state m w.id) _ e in
    let ((i, m₀), got, e₀) = >>=-eq-ok (get_instance m w.id) _ read in
    let ((rest, m₂), collected, e₂) = >>=-eq-ok (available_workers h m₁ ws) _ e₁ in
    let (is_state, first) = get_instance_lem m w.id i m₀ got in
    let agrees : Agrees m m₁ = subst (Agrees m) (ap (λ p. p.1) (ok-injective e₀)) first in
    let known : state ≡ state_of m w.id = ground (arith, e₀, is_state) in
    let (kept, more) = available_workers_lem h m₁ ws rest m₂ collected in
    let same : rest ≡ keep (is_available h m) ws =
      kept ∙ ap (λ p. keep p ws) (is_available-Agrees h agrees) in
    (
      ground (arith, e₂, same, known),
      subst (Agrees m) (ap (λ p. p.1) (ok-injective e₂)) (Agrees-trans agrees more),
    )

-- A delegation that returns answers with a best match among exactly the registry's workers that
-- are idle and of usable health, and changes no worker's state.
pub delegate_lem :
    (h : Health) (m : Manager) (t : Task) (o : Option (Profile × CapabilityScore)) (m' : Manager)
    → delegate h m t ≡ ok (o, m')
    → IsMatch (keep (is_available h m) (workers m.registry)) t o × Agrees m m'
unfolding delegate
delegate_lem h m t o m' e =
    let ((ws, m₁), collected, e₁) = >>=-eq-ok (available_workers h m (workers m.registry)) _ e in
    let (kept, agrees) = available_workers_lem h m (workers m.registry) ws m₁ collected in
    let p = ok-injective e₁ in
    (
      subst (IsMatch (keep (is_available h m) (workers m.registry)) t)
          (ap (λ l. best_worker l t) (sym kept) ∙ ap (λ q. q.0) p)
          (best_worker_lem (keep (is_available h m) (workers m.registry)) t),
      subst (Agrees m) (ap (λ q. q.1) p) agrees,
    )
