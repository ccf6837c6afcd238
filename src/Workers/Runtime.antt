-- ===== src/Workers/Runtime.antt =====
-- src/eag/workers/runtime.py. What the worker's own `execute` does is a parameter: the result that
-- it returns, or the message of the exception that it raises. The handlers of the event bus may raise
-- as well; they do not call the workers' code.
pub mod Recording
pub mod Executions
use text.Mathlib.Text.{◌==◌ as str_eq}
use text.Mathlib.TextPositions.{eq_refl}
use eag.Prelude.{
  Option, none, some, ℕ, zero, suc, ◌+◌, ◌≡◌, refl, Bool, true, false, List, [], ◌∷◌, ◌++◌, String,
  Result, ok, err, ◌>>=◌, length, if◌then◌else◌, arith, >>=-eq-ok, ok-injective,
}
use eag.Workers.Models.{Profile, Task, Report, idle, executing}
use eag.Workers.Health.{Health, record_success, record_failure}
use eag.Workers.Registry.{Registry, WorkerError, exception, workers}
use eag.Workers.Manager.{
  Instance, Manager, store, get_instance, release, idle_workers, busy_workers,
}

pub data Event : Type 0 where
  worker_started : (worker_id task_id : String) → Event
  worker_completed : (worker_id task_id : String) → Bool → Event
  worker_failed : (worker_id task_id error : String) → Event
  worker_released : (worker_id : String) → Event

-- The runtime with the manager and the health manager that it shares. Of the event bus it has what
-- was published, and what its handlers do with the last one of the published events: none where
-- they return, and the text of the exception where one raises.
pub record Runtime : Type 0 where
  pub manager : Manager
  pub health : Health
  pub events : List Event
  pub handlers : List Event → Option String
  pub completed_tasks : ℕ
  pub failed_tasks : ℕ

abbrev pub publish : Runtime → Event → Runtime
publish r e = record r { events = r.events ++ e ∷ [] }

-- What the handlers raise over the last event.
abbrev pub raises : Runtime → Option String
raises r = r.handlers r.events

-- A call's end: the runtime that it leaves, and the report or the exception.
abbrev pub Ending : Type 0
Ending = Runtime × Result WorkerError Report

-- The report where the worker raised.
abbrev pub exception_report : Profile → Task → Report
exception_report w t = record { worker_id = w.id; task_id = t.id; success = false }

-- The `except` clause, for an exception with the text.
unfoldable pub record_exception : Runtime → Profile → Task → String → Ending
record_exception r w t message =
    let r₁ =
      publish (record r { health = record_failure r.health w.id })
        (worker_failed w.id t.id message) in
    elim (raises r₁) [
      | some text ↦ (r₁, err (exception text))
      | none ↦ (record r₁ { failed_tasks = r₁.failed_tasks + 1 }, ok (exception_report w t))
    ]

-- The `try` behind the call of the worker: the health and the event, and then the count.
abbrev pub record_report : Runtime → Profile → Task → Report → Runtime
record_report r w t report =
    let health =
      if report.success then record_success r.health w.id else record_failure r.health w.id in
    publish (record r { health = health }) (worker_completed w.id t.id report.success)

abbrev pub count_report : Runtime → Report → Runtime
count_report r report =
    if report.success
    then record r { completed_tasks = r.completed_tasks + 1 }
    else record r { failed_tasks = r.failed_tasks + 1 }

-- The `try` and the `except`.
unfoldable pub record_outcome : Runtime → Profile → Task → Result String Report → Ending
unfolding record_exception
record_outcome r w t (err message) = record_exception r w t message
record_outcome r w t (ok report) =
    let r₁ = record_report r w t report in
    elim (raises r₁) [
      | some text ↦ record_exception r₁ w t text
      | none ↦ (count_report r₁ report, ok report)
    ]

-- The `finally` clause: what it raises takes the place of the answer.
unfoldable pub finish : Profile → Ending → Ending
finish w (r, answer) = elim (release r.manager w.id) [
  | err e ↦ (r, err e)
  | ok m ↦
      let r₁ = publish (record r { manager = m }) (worker_released w.id) in
      elim (raises r₁) [ some text ↦ (r₁, err (exception text)) | none ↦ (r₁, answer) ]
]

-- `inst.state = WorkerState.EXECUTING`
abbrev pub start : Runtime → Manager → Profile → Task → Instance → Runtime
start r m w t i =
    publish (record r { manager = store m w.id (record i { state = executing }) })
      (worker_started w.id t.id)

-- `execute`; the first event is published before the `try`.
unfoldable pub execute : Runtime → Profile → Task → Result String Report → Ending
execute r w t outcome = elim (get_instance r.manager w.id) [
  | err e ↦ (r, err e)
  | ok (i, m) ↦
      let r₁ = start r m w t i in
      elim (raises r₁) [
        | some text ↦ (r₁, err (exception text))
        | none ↦ finish w (record_outcome r₁ w t outcome)
      ]
]

-- For a caller that hands an exception on: what a call that returns leaves.
abbrev pub returned : Ending → Result WorkerError (Report × Runtime)
returned (r, ok report) = ok (report, r)
returned (r, err e) = err e

-- `get_metrics`, with the two numbers of the utilization's fraction.
pub record Metrics : Type 0 where
  pub total_workers : ℕ
  pub idle_count : ℕ
  pub busy_count : ℕ
  pub completed_count : ℕ
  pub failed_count : ℕ

unfoldable pub get_metrics : Runtime → Metrics
get_metrics r = record {
  total_workers = length (workers r.manager.registry);
  idle_count = length (idle_workers r.manager);
  busy_count = length (busy_workers r.manager);
  completed_count = r.completed_tasks;
  failed_count = r.failed_tasks;
}
