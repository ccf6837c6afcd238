-- ===== src/Kernel/Lifecycle.antt =====
-- src/eag/kernel/kernel.py. The log is left out.
pub mod Boot
pub mod Shutdown
use eag.Prelude.{Option, none, some, Bool, true, false, if◌then◌else◌}
use eag.Kernel.System.{
  System, KernelState, Exception, publish, kernel_boot_started, kernel_boot_completed,
  kernel_shutdown_started, kernel_shutdown_completed,
}
use eag.Kernel.Plugins.{Manager, Error, raised, Outcome}
use eag.Kernel.Plugins.All.{load_all, unload_all, degraded}

pub record Kernel : Type 0 where
  pub state : KernelState
  pub manager : Manager

-- What `boot` and `shutdown` raise.
pub data Failure : Type 0 where
  cannot_boot : KernelState → Failure
  cannot_shutdown : KernelState → Failure
  handler : Exception → Failure
  plugins : Error → Failure

abbrev pub Result : System → Type 0
Result s = Option Failure × Kernel × s.World

-- The end of `try`: a handler that raises fails the kernel.
abbrev pub settle : Option Exception → Kernel → Option Failure × Kernel
settle none k = (none, k)
settle (some x) k = (some (handler x), record k { state = KernelState.failed })

abbrev pub booted : Manager → KernelState
booted m = if degraded m then KernelState.ready_degraded else KernelState.ready

-- `boot`, behind `load_all`.
unfoldable pub complete_boot : (s : System) → Outcome s → Result s
complete_boot s (some e, m, w) =
    (some (plugins e), record { state = KernelState.failed; manager = m }, w)
complete_boot s (none, m, w) =
    let (x, w₁) = s.call (publish (kernel_boot_completed (booted m))) w in
    let (e, k) = settle x (record { state = booted m; manager = m }) in (e, k, w₁)

-- `boot`, behind the test of the state.
unfoldable pub start_boot : (s : System) → Kernel → s.World → Result s
start_boot s k w =
    let (x, w₁) = s.call (publish (kernel_boot_started k.state)) w in
    elim x [ some y ↦ (some (handler y), k, w₁) | none ↦ complete_boot s (load_all s k.manager w₁) ]

unfoldable pub boot_from : (s : System) → Kernel → s.World → KernelState → Result s
boot_from s k w KernelState.ready = (none, k, w)
boot_from s k w KernelState.created = start_boot s k w
boot_from s k w KernelState.stopped = start_boot s k w
boot_from s k w state = (some (cannot_boot state), k, w)

unfoldable pub boot : (s : System) → Kernel → s.World → Result s
boot s k w = boot_from s k w k.state

-- `shutdown`, behind `unload_all`.
unfoldable pub complete_shutdown : (s : System) → Outcome s → Result s
complete_shutdown s (some e, m, w) =
    (some (plugins e), record { state = KernelState.failed; manager = m }, w)
complete_shutdown s (none, m, w) =
    let (x, w₁) = s.call (publish (kernel_shutdown_completed KernelState.stopped)) w in
    let (e, k) = settle x (record { state = KernelState.stopped; manager = m }) in (e, k, w₁)

-- `shutdown`, behind the test of the state. A handler of the first event that raises leaves the
-- kernel in `SHUTTING_DOWN`.
unfoldable pub start_shutdown : (s : System) → Kernel → s.World → Result s
start_shutdown s k w =
    let (x, w₁) = s.call (publish (kernel_shutdown_started k.state)) w in
    elim x [
      | some y ↦ (some (handler y), record k { state = KernelState.shutting_down }, w₁)
      | none ↦ complete_shutdown s (unload_all s k.manager w₁)
    ]

unfoldable pub shutdown_from : (s : System) → Kernel → s.World → KernelState → Result s
shutdown_from s k w KernelState.stopped = (none, k, w)
shutdown_from s k w KernelState.ready = start_shutdown s k w
shutdown_from s k w KernelState.ready_degraded = start_shutdown s k w
shutdown_from s k w state = (some (cannot_shutdown state), k, w)

unfoldable pub shutdown : (s : System) → Kernel → s.World → Result s
shutdown s k w = shutdown_from s k w k.state
