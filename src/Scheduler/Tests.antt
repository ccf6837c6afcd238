-- ===== src/Scheduler/Tests.antt =====
-- A queue of two tasks and a dispatch, and the theorems at them.
use text.Mathlib.Text.{◌==◌ as str_eq}
use eag.Prelude.{strip, is_blank, err, ◌≡◌, refl, false, ◌||◌, none, some, [], ◌∷◌, String, ok}
use eag.Prelude.Sorting.{sort_by, insert_by}
use eag.Graph.TaskGraph.{TaskNode, normal, high, sorts_before, priority_order}
use eag.Scheduler.Queue.{ReadyQueue, push, pop, remove, contains}
use eag.Scheduler.Queue.Order.{IsQueue, Popped, push_lem, pop_lem}
use eag.Scheduler.Dispatcher.{dispatch, make_assignment, empty_text, IsDispatched, dispatch_lem}
use eag.Workers.Models.{Role, Profile, idle, assigned}
use eag.Workers.Health.{Health, new, get_health}
use eag.Workers.Registry.{find, lookup, workers, by_capability}
use eag.Workers.Manager.{Manager, get_instance, collect, choose, find_best_worker, assign, store}

abbrev slow : TaskNode
slow = record { id = "a"; title = "slow"; required_capability = ""; priority = normal }

abbrev fast : TaskNode
fast = record { id = "b"; title = "fast"; required_capability = ""; priority = high }

abbrev queue : ReadyQueue
queue = fast ∷ slow ∷ []

queues : Unit {0}
unfolding push pop remove contains sort_by insert_by sorts_before priority_order
queues = tt

slow-IsQueue : IsQueue (slow ∷ [])
slow-IsQueue = record { once = refl; sorted = refl }

queue-IsQueue : IsQueue queue
unfolding priority_order
queue-IsQueue = record { once = refl; sorted = refl }

pushed : push (slow ∷ []) fast ≡ ok queue
unfolding queues
pushed = refl

push_lem_example :
    IsQueue queue
    × (contains (slow ∷ []) "b" ≡ false)
    × ((k : String) → contains queue k ≡ (contains (slow ∷ []) k || str_eq "b" k))
push_lem_example = push_lem (slow ∷ []) fast queue slow-IsQueue pushed

popped : pop queue ≡ ok (fast, slow ∷ [])
unfolding queues
popped = refl

pop_lem_example : Popped queue (fast, slow ∷ [])
pop_lem_example = pop_lem queue fast (slow ∷ []) queue-IsQueue popped

abbrev ann : Profile
ann = record { id = "ann"; role = Role.backend; capabilities = []; preferred_capabilities = [] }

abbrev health : Health
health = new 3 5

abbrev start : Manager
start = record { registry = ("ann", ann) ∷ []; instances = λ k. none }

dispatches : Unit {0}
unfolding dispatch make_assignment strip is_blank find_best_worker collect get_instance choose
    by_capability workers sort_by insert_by find lookup assign get_health
dispatches = tt

abbrev after : Manager
after =
    store (store start "ann" (record { worker = ann; state = idle; current_task_id = none })) "ann"
      (record { worker = ann; state = assigned; current_task_id = some "b" })

dispatched :
    dispatch health start fast ≡ ok (some (record { worker_id = "ann"; task_id = "b" }), after)
unfolding dispatches
dispatched = refl

dispatch_lem_example : IsDispatched health start fast (dispatch health start fast)
dispatch_lem_example = dispatch_lem health start fast

-- A blank identifier is refused when the worker is already assigned.
abbrev nameless : TaskNode
nameless = record { id = " "; title = "fast"; required_capability = ""; priority = high }

dispatch-nameless :
    dispatch health start nameless
    ≡ err (
        empty_text "task_id" (
          store
            (store start "ann" (record { worker = ann; state = idle; current_task_id = none }))
            "ann"
            (record { worker = ann; state = assigned; current_task_id = some " " })))
unfolding dispatches
dispatch-nameless = refl
