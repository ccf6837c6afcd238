-- ===== src/Workers/Manager/Assignment.antt =====
-- Finding, assigning and releasing workers.
use text.Mathlib.Text.{◌==◌ as str_eq}
use text.Mathlib.TextEquality.{eq_iff}
use mathlib.Core.Path.{fun_ext, subst}
use eag.Prelude.{
  ◌≡◌, refl, ap, ◌∙◌, Bool, true, false, ◌&&◌, ◌||◌, Option, none, some, List, [], ◌∷◌, String, ok,
  keep, arith, Bool-cases, inl, inr, ok-injective, >>=-eq-ok, any,
}
use eag.Workers.Models.{Profile, State, idle}
use eag.Workers.Health.{Health, get_health}
use eag.Workers.Registry.{find, usable}
use eag.Workers.Manager.{
  Instance, Manager, new_instance, store, make_instance, get_instance, is_idle, collect,
}

-- What a manager knows of a worker: the state of its instance, or `idle` where there is none.
abbrev pub state_of : Manager → String → State
state_of m k = elim (m.instances k) [ none ↦ idle | some i ↦ i.state ]

-- Two managers with the same registry that know the same states.
pub record Agrees (m m' : Manager) : Type 0 where
  pub registry : m'.registry ≡ m.registry
  pub states : (k : String) → state_of m' k ≡ state_of m k

make_instance_lem :
    (m : Manager) (id : String) (known : Option Instance) (i : Instance) (m' : Manager)
    → m.instances id ≡ known
    → make_instance m id known ≡ ok (i, m')
    → (i.state ≡ state_of m id) × Agrees m m'
unfolding make_instance
make_instance_lem m id (some j) i m' e h =
    (ground (arith, e), record { registry = ground arith; states = λ k. ground arith })
make_instance_lem m id none i m' e h =
    let (w, found, made) =
      >>=-eq-ok (find m.registry id) (λ w. ok (new_instance w, store m id (new_instance w))) h in
    (
      ground (arith, e, made),
      record {
        registry = ground (arith, made);
        states = λ k. elim (Bool-cases (str_eq id k)) [
          | inl same ↦ ground (arith, made, same, e, ap m.instances ((eq_iff id k).0 same))
          | inr other ↦ ground (arith, made, other)
        ];
      },
    )

-- Reading an instance changes no worker's state.
pub get_instance_lem :
    (m : Manager) (id : String) (i : Instance) (m' : Manager)
    → get_instance m id ≡ ok (i, m')
    → (i.state ≡ state_of m id) × Agrees m m'
unfolding get_instance
get_instance_lem m id i m' h = make_instance_lem m id (m.instances id) i m' refl h

abbrev pub is_known : Manager → String → Bool
is_known m k = elim (m.instances k) [ none ↦ false | some i ↦ true ]

abbrev pub is_worker : String → Profile → Bool
is_worker k w = str_eq w.id k

make_instance-known :
    (m : Manager) (id : String) (known : Option Instance) (i : Instance) (m' : Manager)
    → m.instances id ≡ known
    → make_instance m id known ≡ ok (i, m')
    → (k : String) → (str_eq id k || is_known m k) ≡ true
    → is_known m' k ≡ true
unfolding make_instance
make_instance-known m id (some j) i m' e h k t = elim (Bool-cases (str_eq id k)) [
  | inl same ↦ ground (arith, e, h, same, ap m.instances ((eq_iff id k).0 same))
  | inr other ↦ ground (arith, h, other, t)
]
make_instance-known m id none i m' e h k t =
    let (w, found, made) =
      >>=-eq-ok (find m.registry id) (λ w. ok (new_instance w, store m id (new_instance w))) h in
    ground (arith, made, t)

pub get_instance-known :
    (m : Manager) (id : String) (i : Instance) (m' : Manager)
    → get_instance m id ≡ ok (i, m')
    → (k : String) → (str_eq id k || is_known m k) ≡ true
    → is_known m' k ≡ true
unfolding get_instance
get_instance-known m id i m' h = make_instance-known m id (m.instances id) i m' refl h

abbrev pub is_available : Health → Manager → Profile → Bool
is_available h m w = is_idle (state_of m w.id) && usable (get_health h w.id)

pub is_available-Agrees :
    (h : Health) {m m' : Manager} → Agrees m m' → is_available h m' ≡ is_available h m
is_available-Agrees h a =
    fun_ext (λ w. ap (λ s. is_idle s && usable (get_health h w.id)) (a.states w.id))

pub Agrees-trans : {m₁ m₂ m₃ : Manager} → Agrees m₁ m₂ → Agrees m₂ m₃ → Agrees m₁ m₃
Agrees-trans a b = record {
  registry = b.registry ∙ a.registry;
  states = λ k. b.states k ∙ a.states k;
}

-- The loop over the candidates keeps those that were available before it.
pub collect_lem :
    (h : Health) (m : Manager) (ws : List Profile) (l : List Profile) (m' : Manager)
    → collect h m ws ≡ ok (l, m')
    → (l ≡ keep (is_available h m) ws) × Agrees m m'
unfolding collect
collect_lem h m [] l m' e =
    (ground arith, record { registry = ground arith; states = λ k. ground arith })
collect_lem h m (w ∷ ws) l m' e =
    let ((i, m₁), got, e₁) = >>=-eq-ok (get_instance m w.id) _ e in
    let ((rest, m₂), collected, e₂) = >>=-eq-ok (collect h m₁ ws) _ e₁ in
    let (state, read) = get_instance_lem m w.id i m₁ got in
    let (kept, more) = collect_lem h m₁ ws rest m₂ collected in
    let same : rest ≡ keep (is_available h m) ws =
      kept ∙ ap (λ p. keep p ws) (is_available-Agrees h read) in
    (
      ground (arith, e₂, same, state),
      subst (Agrees m) (ap (λ p. p.1) (ok-injective e₂)) (Agrees-trans read more),
    )

-- The loop's managers know each candidate that was looked at.
pub collect-known :
    (h : Health) (m : Manager) (ws : List Profile) (l : List Profile) (m' : Manager)
    → collect h m ws ≡ ok (l, m')
    → (k : String) → (any (is_worker k) ws || is_known m k) ≡ true
    → is_known m' k ≡ true
unfolding collect
collect-known h m [] l m' e k t = ground (arith, e, t)
collect-known h m (w ∷ ws) l m' e k t =
    let ((i, m₁), got, e₁) = >>=-eq-ok (get_instance m w.id) _ e in
    let ((rest, m₂), collected, e₂) = >>=-eq-ok (collect h m₁ ws) _ e₁ in
    let known = get_instance-known m w.id i m₁ got k in
    let more = collect-known h m₁ ws rest m₂ collected k in
    subst (λ m. is_known m k ≡ true) (ap (λ p. p.1) (ok-injective e₂))
      (more (ground (arith, t, known)))

pub get_instance-here :
    (m : Manager) (id : String) (i : Instance)
    → m.instances id ≡ some i
    → get_instance m id ≡ ok (i, m)
unfolding get_instance make_instance
get_instance-here m id i e = ap (make_instance m id) e
