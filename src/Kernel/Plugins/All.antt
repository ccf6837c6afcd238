-- ===== src/Kernel/Plugins/All.antt =====
-- src/eag/plugins/manager.py: the operations on every plugin that is registered.
use eag.Prelude.{Bool, true, false, Option, none, some, List, [], ◌∷◌, ◌++◌, String, any}
use eag.Kernel.System.{System, PluginPolicy, required, optional, PluginState, PluginRuntimeStatus}
use eag.Kernel.Plugins.{Entry, Manager, Outcome, not_registered, load, unload}

-- Whether the plugin's state is `LOADED`.
abbrev pub is_loaded : Option Entry → Bool
is_loaded none = false
is_loaded (some r) = elim r.state [ PluginState.loaded ↦ true | _ ↦ false ]

abbrev pub is_unavailable : Option Entry → Bool
is_unavailable none = false
is_unavailable (some r) = elim r.status [ PluginRuntimeStatus.unavailable ↦ true | _ ↦ false ]

-- The answer where a required plugin raises, and where an optional one does.
abbrev pub on_policy {ℓ} : {A : Type ℓ} → PluginPolicy → A → A → A
on_policy required x y = x
on_policy optional x y = y

unfoldable pub load_each : (s : System) → Manager → s.World → List String → Outcome s
load_each s m w [] = (none, m, w)
load_each s m w (name ∷ names) =
    let (e, m₁, w₁) = load s m w name in
    let rest = load_each s m₁ w₁ names in
    elim (m.plugins name) [
      | none ↦ (some (not_registered name), m, w)
      | some r ↦ elim e [ none ↦ rest | some x ↦ on_policy r.policy (some x, m₁, w₁) rest ]
    ]

unfoldable pub load_all : (s : System) → Manager → s.World → Outcome s
load_all s m w = load_each s m w m.names

abbrev pub reversed : List String → List String
reversed [] = []
reversed (name ∷ names) = reversed names ++ name ∷ []

-- `unload_all`, the loop: only a plugin that is loaded is unloaded, and what that raises is raised.
unfoldable pub unload_each : (s : System) → Manager → s.World → List String → Outcome s
unload_each s m w [] = (none, m, w)
unload_each s m w (name ∷ names) =
    let (e, m₁, w₁) = unload s m w name in
    let unloaded = unload_each s m₁ w₁ names in
    let skipped = unload_each s m w names in
    elim (is_loaded (m.plugins name)) [
      | false ↦ skipped
      | true ↦ elim e [ none ↦ unloaded | some x ↦ (some x, m₁, w₁) ]
    ]

unfoldable pub unload_all : (s : System) → Manager → s.World → Outcome s
unload_all s m w = unload_each s m w (reversed m.names)

unfoldable pub degraded : Manager → Bool
degraded m = any (λ name. is_unavailable (m.plugins name)) m.names
