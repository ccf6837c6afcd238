-- ===== src/Kernel/Plugins/Loading.antt =====
-- What loading one plugin, leaves of the plugins.
use text.Mathlib.Text.{◌==◌ as str_eq}
use text.Mathlib.TextEquality.{eq_iff}
use text.Mathlib.TextPositions.{eq_refl}
use eag.Prelude.{
  ◌≡◌, ◌≢◌, refl, ap, sym, ◌∙◌, true, false, Option, none, some, String, arith, Bool-cases,
  Option-cases, inl, inr,
}
use eag.Kernel.System.{
  System, PluginPolicy, PluginState, PluginRuntimeStatus, Exception, publish, load_plugin,
  plugin_load_started, plugin_load_completed,
}
use eag.Kernel.Plugins.{
  Entry, Manager, Outcome, write, finish, raised, fail_load, complete_load, start_load, load_entry,
  load,
}
use eag.Kernel.Plugins.All.{is_loaded}

abbrev pub policy_of : Option Entry → Option PluginPolicy
policy_of none = none
policy_of (some r) = some r.policy

-- At most the plugin of this name has changed, and its policy has not.
pub record Touched (m : Manager) (name : String) (p : PluginPolicy) (m' : Manager) : Type 0 where
  pub names : m'.names ≡ m.names
  pub others : (k : String) → str_eq name k ≡ false → m'.plugins k ≡ m.plugins k
  pub policy : policy_of (m'.plugins name) ≡ some p

pub Touched-refl :
    (m : Manager) (name : String) (r : Entry) → m.plugins name ≡ some r → Touched m name r.policy m
Touched-refl m name r e = record { names = refl; others = λ k h. refl; policy = ap policy_of e }

pub Touched-write :
    (m m₁ : Manager) (name : String) (r : Entry)
    → Touched m name r.policy m₁
    → Touched m name r.policy (write m₁ name r)
Touched-write m m₁ name r t = record {
  names = t.names;
  others = λ k h. ground (arith, h, t.others k h);
  policy = ground (arith, eq_refl name);
}

pub written : (m : Manager) (name : String) (r : Entry) → (write m name r).plugins name ≡ some r
written m name r = ground (arith, eq_refl name)

-- The manager that an operation leaves: the plugin is loaded where nothing is raised.
record Loaded (s : System) (m : Manager) (name : String) (p : PluginPolicy) (o : Outcome s)
    : Type 0 where
  touched : Touched m name p o.1
  loaded : o.0 ≡ none → is_loaded (o.1.plugins name) ≡ true

pub finish-some : (y : Option Exception) (x : Exception) → finish y (some (raised x)) ≢ none
finish-some none x h = cc
finish-some (some y) x h = cc

fail_load-Loaded :
    (s : System) (m m₁ : Manager) (w : s.World) (name : String) (r : Entry) (x : Exception)
    → Touched m name r.policy m₁
    → Loaded s m name r.policy (fail_load s m₁ w name r x)
unfolding fail_load
fail_load-Loaded s m m₁ w name r x t = record {
  touched = Touched-write m m₁ name _ t;
  loaded = λ h. absurd (finish-some _ x h);
}

complete_load-Loaded :
    (s : System) (m m₁ : Manager) (w : s.World) (name : String) (r : Entry) (x : Option Exception)
    → Touched m name r.policy m₁
    → Loaded s m name r.policy (complete_load s m₁ w name r x)
unfolding complete_load
complete_load-Loaded s m m₁ w name r (some x) t = fail_load-Loaded s m m₁ w name r x t
complete_load-Loaded s m m₁ w name r none t =
    let answer = s.call (publish (plugin_load_completed name)) w in
    let now : Entry = record r {
      state = PluginState.loaded;
      status = PluginRuntimeStatus.loaded;
      error = none;
    } in
    let touched = Touched-write m m₁ name now t in
    elim (Option-cases answer.0) [
      | inl e ↦
          rw (e, complete_load)
            (record { touched = touched; loaded = λ h. ap is_loaded (written m₁ name now) })
      | inr (y, e) ↦
          rw (e, complete_load) (fail_load-Loaded s m (write m₁ name now) answer.1 name r y touched)
    ]

start_load-Loaded :
    (s : System) (m : Manager) (w : s.World) (name : String) (r : Entry)
    → m.plugins name ≡ some r
    → Loaded s m name r.policy (start_load s m w name r)
unfolding start_load
start_load-Loaded s m w name r e =
    let begun : Entry = record r { state = PluginState.loading } in
    let t = Touched-write m m name begun (Touched-refl m name r e) in
    let started = s.call (publish (plugin_load_started name)) w in
    let loaded = s.call (load_plugin name) started.1 in
    elim (Option-cases started.0) [
      | inr (y, e) ↦
          rw (e, start_load) (record { touched = t; loaded = λ h. absurd (finish-some none y h) })
      | inl e ↦
          rw (e, start_load)
            (complete_load-Loaded s m (write m name begun) loaded.1 name r loaded.0 t)
    ]

-- What a load leaves of the managed plugins.
pub record Loads (m m' : Manager) : Type 0 where
  pub names : m'.names ≡ m.names
  pub policies : (k : String) → policy_of (m'.plugins k) ≡ policy_of (m.plugins k)
  pub kept : (k : String) → is_loaded (m.plugins k) ≡ true → is_loaded (m'.plugins k) ≡ true

pub Loads-refl : (m : Manager) → Loads m m
Loads-refl m = record { names = refl; policies = λ k. refl; kept = λ k h. h }

pub Loads-trans : (a b c : Manager) → Loads a b → Loads b c → Loads a c
Loads-trans a b c f g = record {
  names = g.names ∙ f.names;
  policies = λ k. g.policies k ∙ f.policies k;
  kept = λ k h. g.kept k (f.kept k h);
}

Touched-Loads :
    (m m' : Manager) (name : String) (r : Entry)
    → m.plugins name ≡ some r
    → is_loaded (some r) ≡ false
    → Touched m name r.policy m'
    → Loads m m'
Touched-Loads m m' name r e new t = record {
  names = t.names;
  policies = λ k. elim (Bool-cases (str_eq name k)) [
    | inl same ↦
        let n : name ≡ k = (eq_iff name k).0 same in
        sym (ap (λ i. policy_of (m'.plugins i)) n)
        ∙ t.policy
        ∙ sym (ap policy_of e)
        ∙ ap (λ i. policy_of (m.plugins i)) n
    | inr other ↦ ap policy_of (t.others k other)
  ];
  kept = λ k h. elim (Bool-cases (str_eq name k)) [
    | inl same ↦ let n : name ≡ k = (eq_iff name k).0 same in cc (n, e, new, h)
    | inr other ↦ ap is_loaded (t.others k other) ∙ h
  ];
}

load_entry-Loads :
    (s : System) (m : Manager) (w : s.World) (name : String) (r : Entry) (state : PluginState)
    → m.plugins name ≡ some r
    → r.state ≡ state
    → Loads m (load_entry s m w name r state).1
      × ((load_entry s m w name r state).0 ≡ none
          → is_loaded ((load_entry s m w name r state).1.plugins name) ≡ true)
unfolding load_entry
load_entry-Loads s m w name r PluginState.loaded e h =
    (Loads-refl m, λ z. ap is_loaded e ∙ rw h refl)
load_entry-Loads s m w name r PluginState.created e h =
    let l = start_load-Loaded s m w name r e in
    (Touched-Loads m _ name r e (rw h refl) l.touched, l.loaded)
load_entry-Loads s m w name r PluginState.unloaded e h =
    let l = start_load-Loaded s m w name r e in
    (Touched-Loads m _ name r e (rw h refl) l.touched, l.loaded)
load_entry-Loads s m w name r _ e h = (Loads-refl m, λ z. cc)

pub load-Loads :
    (s : System) (m : Manager) (w : s.World) (name : String) (r : Entry)
    → m.plugins name ≡ some r
    → Loads m (load s m w name).1
      × ((load s m w name).0 ≡ none → is_loaded ((load s m w name).1.plugins name) ≡ true)
unfolding load
load-Loads s m w name r e = rw (e, load) (load_entry-Loads s m w name r r.state e refl)
