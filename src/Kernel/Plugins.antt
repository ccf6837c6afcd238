-- ===== src/Kernel/Plugins.antt =====
-- src/eag/plugins/manager.py, with the models of registration.py, health.py, policy.py and
-- errors.py and the plugin's state of src/eag/core/plugin.py. An operation answers the exception
-- that it raises, if it does, and the manager and the world that it leaves. The log is left out.
pub mod All
pub mod Loading
pub mod Batch
pub mod Unloading
use text.Mathlib.Text.{◌==◌ as str_eq}
use eag.Prelude.{
  ℕ, Bool, true, false, Option, none, some, List, [], ◌∷◌, ◌++◌, String, length, any, map,
  if◌then◌else◌,
}
use eag.Kernel.System.{
  PluginPolicy, required, optional, PluginState, PluginRuntimeStatus, plugin_registered,
  plugin_load_started, plugin_load_completed, plugin_load_failed, plugin_unload_started,
  plugin_unload_completed, plugin_unload_failed, Exception, publish, load_plugin, unload_plugin,
  System,
}

-- The registration of a plugin with its state and its health, which the manager keeps by its name.
pub record Entry : Type 0 where
  pub version : String
  pub policy : PluginPolicy
  pub state : PluginState
  pub status : PluginRuntimeStatus
  pub error : Option Exception

-- The names in the order of registration, and the two dictionaries.
pub record Manager : Type 0 where
  pub names : List String
  pub plugins : String → Option Entry

pub data Error : Type 0 where
  already_registered : (name : String) → Error
  not_registered : (name : String) → Error
  cannot_load : (name : String) → PluginState → Error
  cannot_unload : (name : String) → PluginState → Error
  raised : Exception → Error

abbrev pub Outcome : System → Type 0
Outcome s = Option Error × Manager × s.World

abbrev pub write : Manager → String → Entry → Manager
write m name r = record m { plugins = λ k. if str_eq name k then some r else m.plugins k }

-- A publication that ends an operation: it raises what the handlers raise, else `e`.
abbrev pub finish : Option Exception → Option Error → Option Error
finish none e = e
finish (some x) e = some (raised x)

unfoldable pub register :
    (s : System) → Manager → s.World → String → String → PluginPolicy → Outcome s
register s m w name version policy = elim (m.plugins name) [
  | some r ↦ (some (already_registered name), m, w)
  | none ↦
      let new : Entry = record {
        version = version;
        policy = policy;
        state = PluginState.created;
        status = PluginRuntimeStatus.registered;
        error = none;
      } in
      let (x, w₁) = s.call (publish (plugin_registered name version)) w in
      (finish x none, write (record m { names = m.names ++ name ∷ [] }) name new, w₁)
]

abbrev pub failure_status : PluginPolicy → PluginRuntimeStatus
failure_status optional = PluginRuntimeStatus.unavailable
failure_status required = PluginRuntimeStatus.failed

-- `load`, the `except` clause.
unfoldable pub fail_load : (s : System) → Manager → s.World → String → Entry → Exception → Outcome s
fail_load s m w name r x =
    let event = plugin_load_failed name x.error_type x.error_message in
    let (y, w₁) = s.call (publish event) w in
    (
      finish y (some (raised x)),
      write m name (record r {
        state = PluginState.failed;
        status = failure_status r.policy;
        error = some x;
      }),
      w₁,
    )

-- `load`, the `try` behind the plugin's `load`.
unfoldable pub complete_load :
    (s : System) → Manager → s.World → String → Entry → Option Exception → Outcome s
complete_load s m w name r (some x) = fail_load s m w name r x
complete_load s m w name r none =
    let m₁ = write m name (record r {
      state = PluginState.loaded;
      status = PluginRuntimeStatus.loaded;
      error = none;
    }) in
    let (x, w₁) = s.call (publish (plugin_load_completed name)) w in
    elim x [ none ↦ (none, m₁, w₁) | some y ↦ fail_load s m₁ w₁ name r y ]

-- `load`, behind the tests of the state.
unfoldable pub start_load : (s : System) → Manager → s.World → String → Entry → Outcome s
start_load s m w name r =
    let m₁ = write m name (record r { state = PluginState.loading }) in
    let (x, w₁) = s.call (publish (plugin_load_started name)) w in
    elim x [
      | some y ↦ (some (raised y), m₁, w₁)
      | none ↦ let (y, w₂) = s.call (load_plugin name) w₁ in complete_load s m₁ w₂ name r y
    ]

unfoldable pub load_entry :
    (s : System) → Manager → s.World → String → Entry → PluginState → Outcome s
load_entry s m w name r PluginState.loaded = (none, m, w)
load_entry s m w name r PluginState.created = start_load s m w name r
load_entry s m w name r PluginState.unloaded = start_load s m w name r
load_entry s m w name r state = (some (cannot_load name state), m, w)

unfoldable pub load : (s : System) → Manager → s.World → String → Outcome s
load s m w name = elim (m.plugins name) [
  | none ↦ (some (not_registered name), m, w)
  | some r ↦ load_entry s m w name r r.state
]

-- `unload`, behind the plugin's `unload`.
unfoldable pub complete_unload :
    (s : System) → Manager → s.World → String → Entry → Option Exception → Outcome s
complete_unload s m w name r (some x) =
    let event = plugin_unload_failed name x.error_type x.error_message in
    let (y, w₁) = s.call (publish event) w in
    (finish y (some (raised x)), write m name (record r { state = PluginState.failed }), w₁)
complete_unload s m w name r none =
    let m₁ = write m name (record r { state = PluginState.unloaded }) in
    let (x, w₁) = s.call (publish (plugin_unload_completed name)) w in
    elim x [
      | none ↦ (none, m₁, w₁)
      | some y ↦
          let event = plugin_unload_failed name y.error_type y.error_message in
          let (z, w₂) = s.call (publish event) w₁ in
          (finish z (some (raised y)), write m₁ name (record r { state = PluginState.failed }), w₂)
    ]

unfoldable pub start_unload : (s : System) → Manager → s.World → String → Entry → Outcome s
start_unload s m w name r =
    let m₁ = write m name (record r { state = PluginState.unloading }) in
    let (x, w₁) = s.call (publish (plugin_unload_started name)) w in
    elim x [
      | some y ↦ (some (raised y), m₁, w₁)
      | none ↦ let (y, w₂) = s.call (unload_plugin name) w₁ in complete_unload s m₁ w₂ name r y
    ]

unfoldable pub unload_entry :
    (s : System) → Manager → s.World → String → Entry → PluginState → Outcome s
unload_entry s m w name r PluginState.unloaded = (none, m, w)
unload_entry s m w name r PluginState.loaded = start_unload s m w name r
unload_entry s m w name r state = (some (cannot_unload name state), m, w)

unfoldable pub unload : (s : System) → Manager → s.World → String → Outcome s
unload s m w name = elim (m.plugins name) [
  | none ↦ (some (not_registered name), m, w)
  | some r ↦ unload_entry s m w name r r.state
]
