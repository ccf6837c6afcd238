-- ===== src/Kernel/Lifecycle/Boot.antt =====
-- What a boot that returns leaves.
use eag.Prelude.{◌⊎◌, ◌≡◌, ◌≢◌, refl, true, Option, none, some, String, Option-cases, inl, inr}
use eag.Prelude.Keys.{elem}
use eag.Kernel.System.{System, required, KernelState, Exception, publish, kernel_boot_started}
use eag.Kernel.Plugins.{Outcome}
use eag.Kernel.Plugins.All.{is_loaded, load_all}
use eag.Kernel.Plugins.Loading.{policy_of}
use eag.Kernel.Plugins.Batch.{LoadsEach, load_each-LoadsEach}
use eag.Kernel.Lifecycle.{
  Kernel, Result, settle, booted, complete_boot, start_boot, boot_from, boot,
}

-- The kernel stands ready, degraded exactly if the health of a registered plugin is unavailable,
-- and every required plugin is loaded.
pub record IsBooted (k k' : Kernel) : Type 0 where
  pub state : k'.state ≡ booted k'.manager
  pub names : k'.manager.names ≡ k.manager.names
  pub required_loaded :
      (name : String)
      → elem name k.manager.names ≡ true
      → policy_of (k.manager.plugins name) ≡ some required
      → is_loaded (k'.manager.plugins name) ≡ true

pub settle-none : (x : Option Exception) (k : Kernel) → (settle x k).0 ≡ none → (settle x k).1 ≡ k
settle-none none k h = refl
settle-none (some x) k h = cc

complete_boot-IsBooted :
    (s : System) (k : Kernel) (o : Outcome s)
    → LoadsEach s k.manager k.manager.names o
    → (complete_boot s o).0 ≡ none
    → IsBooted k (complete_boot s o).1
unfolding complete_boot
complete_boot-IsBooted s k (some e, m, w) l h = cc
complete_boot-IsBooted s k (none, m, w) l h =
    let same = settle-none _ _ h in
    rw (same, complete_boot)
      (record { state = refl; names = l.loads.names; required_loaded = l.each refl })

abbrev Returned : (s : System) → Kernel → Result s → Type 0
Returned s k r = r.0 ≡ none → IsBooted k r.1

-- A boot that raises left the kernel as it was, or failed.
abbrev Raised : (s : System) → Kernel → Result s → Type 0
Raised s k r = r.0 ≢ none → (r.1 ≡ k) ⊎ (r.1.state ≡ KernelState.failed)

pub settle-failed :
    (x : Option Exception) (k : Kernel)
    → (settle x k).0 ≢ none
    → (settle x k).1.state ≡ KernelState.failed
settle-failed none k h = absurd (h refl)
settle-failed (some x) k h = refl

complete_boot-Raised : (s : System) (k : Kernel) (o : Outcome s) → Raised s k (complete_boot s o)
unfolding complete_boot
complete_boot-Raised s k (some e, m, w) h = inr refl
complete_boot-Raised s k (none, m, w) h = inr (settle-failed _ _ h)

start_boot_lem :
    (s : System) (k : Kernel) (w : s.World)
    → Returned s k (start_boot s k w) × Raised s k (start_boot s k w)
unfolding start_boot load_all
start_boot_lem s k w =
    let started = s.call (publish (kernel_boot_started k.state)) w in
    let all = load_each-LoadsEach s k.manager started.1 k.manager.names in
    elim (Option-cases started.0) [
      | inr (y, e) ↦ rw (e, start_boot) (λ h. cc, λ h. inl refl)
      | inl e ↦ rw (e, start_boot) (complete_boot-IsBooted s k _ all, complete_boot-Raised s k _)
    ]

boot_from_lem :
    (s : System) (k : Kernel) (w : s.World) (state : KernelState)
    → k.state ≡ state
    → ((boot_from s k w state).0 ≡ none
        → (state ≡ KernelState.ready) × ((boot_from s k w state).1 ≡ k)
          ⊎ IsBooted k (boot_from s k w state).1)
      × Raised s k (boot_from s k w state)
unfolding boot_from
boot_from_lem s k w KernelState.ready e = (λ h. inl (refl, refl), λ h. inl refl)
boot_from_lem s k w KernelState.created e =
    let (returned, raised) = start_boot_lem s k w in (λ h. inr (returned h), raised)
boot_from_lem s k w KernelState.stopped e =
    let (returned, raised) = start_boot_lem s k w in (λ h. inr (returned h), raised)
boot_from_lem s k w _ e = (λ h. cc, λ h. inl refl)

-- A boot that returns was of a kernel that is ready, and changed nothing, or it leaves the same
-- plugins registered and each of those that are required loaded, and the kernel ready: degraded if
-- the health of a registered plugin is unavailable, and not otherwise. A boot that raises changed
-- nothing or leaves the kernel failed.
pub boot_lem :
    (s : System) (k : Kernel) (w : s.World)
    → ((boot s k w).0 ≡ none
        → (k.state ≡ KernelState.ready) × ((boot s k w).1 ≡ k) ⊎ IsBooted k (boot s k w).1)
      × ((boot s k w).0 ≢ none → ((boot s k w).1 ≡ k) ⊎ ((boot s k w).1.state ≡ KernelState.failed))
unfolding boot
boot_lem s k w = boot_from_lem s k w k.state refl
