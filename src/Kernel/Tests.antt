-- ===== src/Kernel/Tests.antt =====
-- A required plugin `a` that loads and an optional one `b` whose `load` raises, once.
use text.Mathlib.Text.{◌==◌ as str_eq}
use eag.Prelude.{ℕ, ◌+◌, ◌≡◌, ◌≢◌, ◌⊎◌, refl, Option, none, some, [], if◌then◌else◌}
use eag.Kernel.System.{
  PluginRuntimeStatus, System, Call, load_plugin, Exception, KernelState, required, optional,
}
use eag.Kernel.Plugins.{
  Entry, unload, unload_entry, start_unload, complete_unload, Manager, register, load, load_entry,
  start_load, complete_load, fail_load,
}
use eag.Kernel.Plugins.All.{unload_all, unload_each, load_all, load_each, degraded}
use eag.Kernel.Lifecycle.{
  shutdown, shutdown_from, start_shutdown, complete_shutdown, Kernel, boot, boot_from, start_boot,
  complete_boot,
}
use eag.Kernel.Lifecycle.Shutdown.{shutdown_lem, IsShutDown}
use eag.Kernel.Lifecycle.Boot.{boot_lem, IsBooted}

abbrev answer : Call → ℕ → Option Exception × ℕ
answer (load_plugin name) n =
    if str_eq name "b"
    then (some (record { error_type = "OSError"; error_message = "gone" }), n + 1)
    else (none, n + 1)
answer _ n = (none, n + 1)

abbrev machine : System
machine = record { World = ℕ; call = answer }

abbrev two_plugins : Manager
two_plugins =
    let empty : Manager = record { names = []; plugins = λ k. none } in
    (register machine (register machine empty 0 "a" "1" required).1 0 "b" "1" optional).1

abbrev kernel : Kernel
kernel = record { state = KernelState.created; manager = two_plugins }

abbrev booted_kernel : Kernel
booted_kernel = (boot machine kernel 0).1

all_code : Unit {0}
unfolding shutdown shutdown_from start_shutdown complete_shutdown unload_all unload_each unload
    unload_entry start_unload complete_unload register load load_entry start_load complete_load
    fail_load load_all load_each degraded boot boot_from start_boot complete_boot
all_code = tt

boot-degraded :
    ((boot machine kernel 0).0 ≡ none)
    × ((boot machine kernel 0).1.state ≡ KernelState.ready_degraded)
unfolding all_code
boot-degraded = (refl, refl)

boot_lem_example :
    ((boot machine kernel 0).0 ≡ none
      → (kernel.state ≡ KernelState.ready) × ((boot machine kernel 0).1 ≡ kernel)
        ⊎ IsBooted kernel (boot machine kernel 0).1)
    × ((boot machine kernel 0).0 ≢ none
        → ((boot machine kernel 0).1 ≡ kernel)
          ⊎ ((boot machine kernel 0).1.state ≡ KernelState.failed))
boot_lem_example = boot_lem machine kernel 0

shutdown_lem_example :
    ((shutdown machine booted_kernel 0).0 ≡ none
      → (booted_kernel.state ≡ KernelState.stopped)
          × ((shutdown machine booted_kernel 0).1 ≡ booted_kernel)
        ⊎ IsShutDown booted_kernel (shutdown machine booted_kernel 0).1)
    × ((shutdown machine booted_kernel 0).0 ≢ none
        → ((shutdown machine booted_kernel 0).1.manager ≡ booted_kernel.manager)
          ⊎ ((shutdown machine booted_kernel 0).1.state ≡ KernelState.failed))
shutdown_lem_example = shutdown_lem machine booted_kernel 0

shutdown-stopped :
    ((shutdown machine booted_kernel 0).0 ≡ none)
    × ((shutdown machine booted_kernel 0).1.state ≡ KernelState.stopped)
unfolding all_code
shutdown-stopped = (refl, refl)

-- The health of an unloaded plugin still says that it is loaded.
abbrev health_of : Option Entry → Option PluginRuntimeStatus
health_of none = none
health_of (some r) = some r.status

health-unloaded :
    health_of ((shutdown machine booted_kernel 0).1.manager.plugins "a")
    ≡ some PluginRuntimeStatus.loaded
unfolding all_code
health-unloaded = refl
