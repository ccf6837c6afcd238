-- ===== src/Workers/Runtime/Recording.antt =====
-- What the `try` and the `except` of an execution leave, whatever the worker and the handlers of
-- the event bus do.
use eag.Prelude.{
  ◌+◌, ◌≡◌, refl, ap, ◌∙◌, Option, none, some, List, [], ◌∷◌, ◌++◌, String, Result, ok, err,
  if◌then◌else◌, arith, ok-injective, Bool-cases, Option-cases, inl, inr,
}
use eag.Workers.Models.{Profile, Task, Report}
use eag.Workers.Health.{Health, record_success, record_failure}
use eag.Workers.Registry.{WorkerError, exception}
use eag.Workers.Runtime.{
  Runtime, Event, worker_completed, worker_failed, Ending, exception_report, record_exception,
  record_report, count_report, record_outcome,
}

-- The text of the exception that reaches the `except` clause: the worker's, or one of a handler of
-- the completion, which is told behind the given events.
abbrev pub caught :
    (List Event → Option String)
    → List Event
    → Profile
    → Task
    → Result String Report
    → Option String
caught handlers es w t (err message) = some message
caught handlers es w t (ok report) = handlers (es ++ worker_completed w.id t.id report.success ∷ [])

-- The events once the completion is told, where the worker returned.
abbrev pub completion : List Event → Profile → Task → Result String Report → List Event
completion es w t (err message) = es
completion es w t (ok report) = es ++ worker_completed w.id t.id report.success ∷ []

-- The events behind the `try`, with the failure, where an exception was caught.
abbrev pub told : List Event → Profile → Task → Option String → List Event
told es w t none = es
told es w t (some message) = es ++ worker_failed w.id t.id message ∷ []

abbrev pub worked : Health → String → Result String Report → Health
worked h id (ok report) = if report.success then record_success h id else record_failure h id
worked h id (err message) = h

-- A caught exception counts as a failure, the one of a handler behind the outcome's own.
abbrev pub health_after : Health → String → Option String → Health
health_after h id none = h
health_after h id (some message) = record_failure h id

-- What is answered, where the handlers of the release return.
abbrev pub reply :
    (List Event → Option String)
    → List Event
    → Profile
    → Task
    → Result String Report
    → Option String
    → Result WorkerError Report
reply handlers es w t (ok report) none = ok report
reply handlers es w t (err message) none = err (exception message)
reply handlers es w t outcome (some message) = elim (handlers es) [
  | none ↦ ok (exception_report w t)
  | some text ↦ err (exception text)
]

-- What the `try` and the `except` leave.
pub record Recorded (r : Runtime) (w : Profile) (t : Task) (outcome : Result String Report)
    (end : Ending) : Type 0 where
  pub manager : end.0.manager ≡ r.manager
  pub handlers : end.0.handlers ≡ r.handlers
  pub health :
      end.0.health
      ≡ health_after (worked r.health w.id outcome) w.id (caught r.handlers r.events w t outcome)
  pub events :
      end.0.events
      ≡ told (completion r.events w t outcome) w t (caught r.handlers r.events w t outcome)
  pub answer :
      end.1 ≡ reply r.handlers end.0.events w t outcome (caught r.handlers r.events w t outcome)
  pub counted :
      (report : Report)
      → end.1 ≡ ok report
      → (end.0.completed_tasks ≡ r.completed_tasks + (if report.success then 1 else 0))
        × (end.0.failed_tasks ≡ r.failed_tasks + (if report.success then 0 else 1))

record_exception-Recorded :
    (r : Runtime) (w : Profile) (t : Task) (message : String)
    → Recorded r w t (err message) (record_exception r w t message)
unfolding record_exception
record_exception-Recorded r w t message =
    let failed : List Event = r.events ++ worker_failed w.id t.id message ∷ [] in
    elim (Option-cases (r.handlers failed)) [
      | inl e ↦
          rw (e, record_exception)
            (record {
              manager = refl;
              handlers = refl;
              health = refl;
              events = refl;
              answer = rw e refl;
              counted = λ report h. ground (arith, h);
            })
      | inr (text, e) ↦
          rw (e, record_exception)
            (record {
              manager = refl;
              handlers = refl;
              health = refl;
              events = refl;
              answer = rw e refl;
              counted = λ report h. cc;
            })
    ]

count_report_lem :
    (r : Runtime) (report : Report)
    → ((count_report r report).manager ≡ r.manager)
      × ((count_report r report).handlers ≡ r.handlers)
      × ((count_report r report).health ≡ r.health)
      × ((count_report r report).events ≡ r.events)
      × ((count_report r report).completed_tasks
          ≡ r.completed_tasks + (if report.success then 1 else 0))
      × ((count_report r report).failed_tasks ≡ r.failed_tasks + (if report.success then 0 else 1))
count_report_lem r report = elim (Bool-cases report.success) [
  | inl e ↦ rw e (refl, refl, refl, refl, refl, omega arith)
  | inr e ↦ rw e (refl, refl, refl, refl, omega arith, refl)
]

pub record_outcome-Recorded :
    (r : Runtime) (w : Profile) (t : Task) (outcome : Result String Report)
    → Recorded r w t outcome (record_outcome r w t outcome)
unfolding record_outcome
record_outcome-Recorded r w t (err message) = record_exception-Recorded r w t message
record_outcome-Recorded r w t (ok report) =
    let r₁ = record_report r w t report in
    elim (Option-cases (r.handlers r₁.events)) [
      | inl e ↦
          let (manager, handlers, health, events, completed, failed) = count_report_lem r₁ report in
          rw (e, record_outcome)
            (record {
              manager = manager;
              handlers = handlers;
              health = rw e health;
              events = rw e events;
              answer = rw e refl;
              counted = λ answer h.
                  let same = ok-injective h in
                  (
                    completed ∙ ap (λ a. r.completed_tasks + (if a.success then 1 else 0)) same,
                    failed ∙ ap (λ a. r.failed_tasks + (if a.success then 0 else 1)) same,
                  );
            })
      | inr (text, e) ↦
          let x = record_exception-Recorded r₁ w t text in
          rw (e, record_outcome)
            (record {
              manager = x.manager;
              handlers = x.handlers;
              health = rw e x.health;
              events = rw e x.events;
              answer = rw e x.answer;
              counted = x.counted;
            })
    ]
