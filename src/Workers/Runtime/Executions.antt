-- ===== src/Workers/Runtime/Executions.antt =====
-- What an execution leaves: states, counts and events, whatever the worker and the handlers of the
-- event bus do.
use text.Mathlib.Text.{◌==◌ as str_eq}
use eag.Prelude.{
  ◌+◌, ◌≡◌, ◌⊎◌, none, some, List, [], ◌∷◌, ◌++◌, String, Result, ok, err, if◌then◌else◌,
}
use eag.Workers.Models.{Profile, Task, Report, idle, executing}
use eag.Workers.Registry.{WorkerError, exception}
use eag.Workers.Manager.{Manager, get_instance}
use eag.Workers.Manager.Assignment.{state_of}
use eag.Workers.Runtime.Recording.{caught, completion, told, worked, health_after, reply}
use eag.Workers.Runtime.{Runtime, Event, worker_started, worker_released, Ending}

-- The manager cannot find the worker: nothing has changed.
pub record Refused (r : Runtime) (w : Profile) (end : Ending) : Type 0 where
  pub error : WorkerError
  pub unknown : get_instance r.manager w.id ≡ err error
  pub unchanged : end ≡ (r, err error)

abbrev pub begun : Runtime → Profile → Task → List Event
begun r w t = r.events ++ worker_started w.id t.id ∷ []

-- A handler of the first event raises: the worker is left executing.
pub record Blocked (r : Runtime) (w : Profile) (t : Task) (end : Ending) : Type 0 where
  pub text : String
  pub blocked : r.handlers (begun r w t) ≡ some text
  pub answer : end.1 ≡ err (exception text)
  pub states :
      (k : String)
      → state_of end.0.manager k ≡ (if str_eq w.id k then executing else state_of r.manager k)
  pub events : end.0.events ≡ begun r w t
  pub health : end.0.health ≡ r.health
  pub completed : end.0.completed_tasks ≡ r.completed_tasks
  pub failed : end.0.failed_tasks ≡ r.failed_tasks

-- The worker ran: it is released, whatever it and the handlers behind it did.
pub record Ran (r : Runtime) (w : Profile) (t : Task) (outcome : Result String Report)
    (end : Ending) : Type 0 where
  pub admitted : r.handlers (begun r w t) ≡ none
  pub states :
      (k : String)
      → state_of end.0.manager k ≡ (if str_eq w.id k then idle else state_of r.manager k)
  pub health :
      end.0.health
      ≡ health_after
          (worked r.health w.id outcome)
          w.id
          (caught r.handlers (begun r w t) w t outcome)
  pub events :
      end.0.events
      ≡ told
          (completion (begun r w t) w t outcome)
          w
          t
          (caught r.handlers (begun r w t) w t outcome)
        ++ worker_released w.id ∷ []
  pub answer : end.1 ≡ elim (r.handlers end.0.events) [
    | some text ↦ err (exception text)
    | none ↦
        reply r.handlers
          (told
            (completion (begun r w t) w t outcome)
            w
            t
            (caught r.handlers (begun r w t) w t outcome))
          w
          t
          outcome
          (caught r.handlers (begun r w t) w t outcome)
  ]
  pub counted :
      (report : Report)
      → end.1 ≡ ok report
      → (end.0.completed_tasks ≡ r.completed_tasks + (if report.success then 1 else 0))
        × (end.0.failed_tasks ≡ r.failed_tasks + (if report.success then 0 else 1))

abbrev pub IsExecuted : Runtime → Profile → Task → Result String Report → Ending → Type 0
IsExecuted r w t outcome end = Refused r w end ⊎ Blocked r w t end ⊎ Ran r w t outcome end
