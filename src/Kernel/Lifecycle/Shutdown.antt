-- ===== src/Kernel/Lifecycle/Shutdown.antt =====
-- What a shutdown leaves.
use eag.Prelude.{◌⊎◌, ◌≡◌, ◌≢◌, refl, true, false, none, some, String, Option-cases, inl, inr}
use eag.Prelude.Keys.{elem}
use eag.Kernel.System.{System, KernelState, publish, kernel_shutdown_started}
use eag.Kernel.Plugins.{Outcome}
use eag.Kernel.Plugins.All.{is_loaded}
use eag.Kernel.Plugins.Unloading.{UnloadsEach, unload_all-UnloadsEach}
use eag.Kernel.Lifecycle.{
  Kernel, Result, complete_shutdown, start_shutdown, shutdown_from, shutdown,
}
use eag.Kernel.Lifecycle.Boot.{settle-none, settle-failed}

-- The kernel is stopped, and no plugin that was registered is loaded.
pub record IsShutDown (k k' : Kernel) : Type 0 where
  pub state : k'.state ≡ KernelState.stopped
  pub names : k'.manager.names ≡ k.manager.names
  pub none_loaded :
      (name : String)
      → elem name k.manager.names ≡ true
      → is_loaded (k'.manager.plugins name) ≡ false

abbrev Returned : (s : System) → Kernel → Result s → Type 0
Returned s k r = r.0 ≡ none → IsShutDown k r.1

-- A shutdown that raises left the plugins as they were, or the kernel failed.
abbrev Raised : (s : System) → Kernel → Result s → Type 0
Raised s k r = r.0 ≢ none → (r.1.manager ≡ k.manager) ⊎ (r.1.state ≡ KernelState.failed)

complete_shutdown_lem :
    (s : System) (k : Kernel) (o : Outcome s)
    → UnloadsEach s k.manager k.manager.names o
    → Returned s k (complete_shutdown s o) × Raised s k (complete_shutdown s o)
unfolding complete_shutdown
complete_shutdown_lem s k (some e, m, w) u = (λ h. cc, λ h. inr refl)
complete_shutdown_lem s k (none, m, w) u = (
  λ h.
      rw (settle-none _ _ h, complete_shutdown)
        (record { state = refl; names = u.same; none_loaded = u.each refl }),
  λ h. inr (settle-failed _ _ h),
)

start_shutdown_lem :
    (s : System) (k : Kernel) (w : s.World)
    → Returned s k (start_shutdown s k w) × Raised s k (start_shutdown s k w)
unfolding start_shutdown
start_shutdown_lem s k w =
    let started = s.call (publish (kernel_shutdown_started k.state)) w in
    elim (Option-cases started.0) [
      | inr (y, e) ↦ rw (e, start_shutdown) (λ h. cc, λ h. inl refl)
      | inl e ↦
          rw (e, start_shutdown)
            (complete_shutdown_lem s k _ (unload_all-UnloadsEach s k.manager started.1))
    ]

shutdown_from_lem :
    (s : System) (k : Kernel) (w : s.World) (state : KernelState)
    → ((shutdown_from s k w state).0 ≡ none
        → (state ≡ KernelState.stopped) × ((shutdown_from s k w state).1 ≡ k)
          ⊎ IsShutDown k (shutdown_from s k w state).1)
      × Raised s k (shutdown_from s k w state)
unfolding shutdown_from
shutdown_from_lem s k w KernelState.stopped = (λ h. inl (refl, refl), λ h. inl refl)
shutdown_from_lem s k w KernelState.ready =
    let (returned, raised) = start_shutdown_lem s k w in (λ h. inr (returned h), raised)
shutdown_from_lem s k w KernelState.ready_degraded =
    let (returned, raised) = start_shutdown_lem s k w in (λ h. inr (returned h), raised)
shutdown_from_lem s k w _ = (λ h. cc, λ h. inl refl)

-- A shutdown that returns was of a kernel that is stopped, and changed nothing, or it leaves the
-- kernel stopped, the same plugins registered and none of them loaded. A shutdown that raises left
-- the plugins as they were or the kernel failed.
pub shutdown_lem :
    (s : System) (k : Kernel) (w : s.World)
    → ((shutdown s k w).0 ≡ none
        → (k.state ≡ KernelState.stopped) × ((shutdown s k w).1 ≡ k)
          ⊎ IsShutDown k (shutdown s k w).1)
      × ((shutdown s k w).0 ≢ none
          → ((shutdown s k w).1.manager ≡ k.manager)
            ⊎ ((shutdown s k w).1.state ≡ KernelState.failed))
unfolding shutdown
shutdown_lem s k w = shutdown_from_lem s k w k.state
