-- ===== src/Workers/Manager/Choice.antt =====
-- The worker that `find_best_worker` chooses, and what `assign` and `release` then do with it.
use text.Mathlib.Text.{◌==◌ as str_eq}
use text.Mathlib.TextPositions.{eq_refl}
use mathlib.Core.Path.{subst}
use eag.Prelude.{
  ◌≡◌, refl, sym, ap, ◌∙◌, Bool, true, false, not, ◌&&◌, Option, none, some, List, [], ◌∷◌, String,
  ok, keep, arith, Option-cases, inl, inr, ok-injective, >>=-eq-ok, if◌then◌else◌, any-keep, any,
}
use eag.Workers.Models.{Profile, Task, idle, assigned}
use eag.Workers.Health.{Health}
use eag.Workers.Manager.{
  Instance, Manager, store, get_instance, is_idle, collect, choose, candidates, find_best_worker,
  assign, release,
}
use eag.Workers.Manager.Assignment.{
  state_of, Agrees, get_instance_lem, is_available, is_worker, is_known, collect_lem, collect-known,
  get_instance-here,
}
use eag.Workers.Manager.Preference.{prefers, Among-keep, all-keep, choose-Chosen, choose-none}

-- What a search for a worker promises.
pub record IsBest (h : Health) (m : Manager) (t : Task) (w : Profile) : Type 0 where
  pub candidate : any (is_worker w.id) (candidates m t) ≡ true
  pub available : is_available h m w ≡ true
  pub preferred :
      (any (λ v. is_available h m v && prefers t.required_capability v) (candidates m t)
        && (not (str_eq t.required_capability "") && not (prefers t.required_capability w)))
      ≡ false

prefers_if : (a asked b : Bool) → ((a && asked) ≡ true → b ≡ true) → (a && (asked && not b)) ≡ false
prefers_if true true b h = ground (arith, h refl)
prefers_if true false b h = refl
prefers_if false asked b h = refl

-- The search's answers, before the manager that it leaves.
found :
    (h : Health) (m : Manager) (t : Task) (w : Profile)
    → choose t.required_capability (keep (is_available h m) (candidates m t)) ≡ some w
    → IsBest h m t w
found h m t w e =
    let c = choose-Chosen t.required_capability (keep (is_available h m) (candidates m t)) e in
    record {
      candidate =
          (Among-keep (is_available h m) (candidates m t) c.among).same (is_worker w.id)
            (eq_refl w.id);
      available = c.among.one (is_available h m) (all-keep (is_available h m) (candidates m t));
      preferred = prefers_if _ _ (prefers t.required_capability w) (λ p. c.preferred (
          ground (
            arith,
            p,
            any-keep (is_available h m) (prefers t.required_capability) (candidates m t),
          )));
    }

keep-nobody : (p : Profile → Bool) (l : List Profile) → keep p l ≡ [] → any p l ≡ false
keep-nobody p [] h = refl
keep-nobody p (v ∷ l) h = ground (arith, h, keep-nobody p l)

-- What a search answers: a best worker, or that no candidate is available.
abbrev pub IsAnswer : Health → Manager → Task → Option Profile → Type 0
IsAnswer h m t none = any (is_available h m) (candidates m t) ≡ false
IsAnswer h m t (some w) = IsBest h m t w

answer :
    (h : Health) (m : Manager) (t : Task) (o : Option Profile)
    → choose t.required_capability (keep (is_available h m) (candidates m t)) ≡ o
    → IsAnswer h m t o
answer h m t (some w) e = found h m t w e
answer h m t none e =
    keep-nobody (is_available h m) (candidates m t)
      (choose-none t.required_capability (keep (is_available h m) (candidates m t)) e)

-- A search that returns answers with a worker that is a candidate of the task, idle and of usable
-- health, and that prefers the required capability where an available candidate does; or with
-- none, and then no candidate is available. It changes no worker's state.
pub find_best_worker_lem :
    (h : Health) (m : Manager) (t : Task) (o : Option Profile) (m' : Manager)
    → find_best_worker h m t ≡ ok (o, m')
    → IsAnswer h m t o × Agrees m m'
unfolding find_best_worker
find_best_worker_lem h m t o m' e =
    let ((l, m₁), collected, e₁) = >>=-eq-ok (collect h m (candidates m t)) _ e in
    let (kept, agrees) = collect_lem h m (candidates m t) l m₁ collected in
    let p = ok-injective e₁ in
    (
      answer h m t o (ap (choose t.required_capability) (sym kept) ∙ ap (λ q. q.0) p),
      subst (Agrees m) (ap (λ q. q.1) p) agrees,
    )

-- An assignment that returns succeeds exactly for an idle worker, marks only that worker, and
-- otherwise changes no worker's state.
pub assign_lem :
    (m : Manager) (id task_id : String) (b : Bool) (m' : Manager)
    → assign m id task_id ≡ ok (b, m')
    → (b ≡ is_idle (state_of m id))
      × ((k : String) → state_of m' k ≡ (if b && str_eq id k then assigned else state_of m k))
unfolding assign
assign_lem m id task_id b m' e =
    let ((i, m₁), got, e₁) = >>=-eq-ok (get_instance m id) _ e in
    let (state, read) = get_instance_lem m id i m₁ got in
    (ground (arith, e₁, state), λ k. ground (arith, e₁, state, read.states k))

pub known-some :
    (m : Manager) (id : String) → is_known m id ≡ true → (i : Instance) × (m.instances id ≡ some i)
known-some m id known = elim (Option-cases (m.instances id)) [
  | inl e ↦ absurd (ground (arith, known, e))
  | inr found ↦ found
]

assign-idle :
    (m : Manager) (id task_id : String) (i : Instance)
    → m.instances id ≡ some i
    → is_idle i.state ≡ true
    → assign m id task_id
      ≡ ok (true, store m id (record i { state = assigned; current_task_id = some task_id }))
unfolding assign
assign-idle m id task_id i e free = ground (arith, get_instance-here m id i e, free)

assign-taken :
    (m : Manager) (id task_id : String) (i : Instance)
    → m.instances id ≡ some i
    → is_idle i.state ≡ false
    → assign m id task_id ≡ ok (false, m)
unfolding assign
assign-taken m id task_id i e taken = ground (arith, get_instance-here m id i e, taken)

-- After a search that finds a worker, an assignment to that worker succeeds, and a second one to
-- it, of any task, returns false and changes nothing.
pub find-assign :
    (h : Health) (m : Manager) (t : Task) (w : Profile) (m₁ : Manager)
    → find_best_worker h m t ≡ ok (some w, m₁)
    → (m₂ : Manager) × (assign m₁ w.id t.id ≡ ok (true, m₂))
      × ((other : String) → assign m₂ w.id other ≡ ok (false, m₂))
unfolding find_best_worker
find-assign h m t w m₁ e =
    let ((l, m'), collected, e₁) = >>=-eq-ok (collect h m (candidates m t)) _ e in
    let same : m' ≡ m₁ = ap (λ q. q.1) (ok-injective e₁) in
    let (best, agrees) = find_best_worker_lem h m t (some w) m₁ e in
    let known =
      collect-known h m (candidates m t) l m' collected w.id (ground (arith, best.candidate)) in
    let (i, here) = known-some m₁ w.id (subst (λ m. is_known m w.id ≡ true) same known) in
    let free : is_idle i.state ≡ true = ground (arith, best.available, agrees.states w.id, here) in
    let taken = record i { state = assigned; current_task_id = some t.id } in
    let m₂ = store m₁ w.id taken in
    let stored : m₂.instances w.id ≡ some taken = ground (arith, eq_refl w.id) in
    (
      m₂,
      assign-idle m₁ w.id t.id i here free,
      λ other. assign-taken m₂ w.id other taken stored refl,
    )

-- A release that returns leaves the worker idle and changes no other worker's state.
pub release_lem :
    (m : Manager) (id : String) (m' : Manager)
    → release m id ≡ ok m'
    → (k : String) → state_of m' k ≡ (if str_eq id k then idle else state_of m k)
unfolding release
release_lem m id m' e k =
    let ((i, m₁), got, e₁) = >>=-eq-ok (get_instance m id) _ e in
    let (state, read) = get_instance_lem m id i m₁ got in ground (arith, e₁, read.states k)
