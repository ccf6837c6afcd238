-- ===== src/Scheduler/Queue.antt =====
-- src/eag/scheduler/queue.py. The priorities' order is the one of `TaskGraph.ready`.
pub mod Order
use text.Mathlib.Text.{◌==◌ as str_eq}
use eag.Prelude.{
  ℕ, Bool, true, false, not, ◌||◌, List, [], ◌∷◌, ◌++◌, String, Result, ok, err, ◌>>◌, guard,
  length, any, is_empty, if◌then◌else◌, ◌==◌,
}
use eag.Prelude.Sorting.{sort_by}
use eag.Graph.TaskGraph.{TaskNode, sorts_before}

pub data QueueError : Type 0 where
  already_queued : String → QueueError
  queue_empty : QueueError

abbrev pub ReadyQueue : Type 0
ReadyQueue = List TaskNode

unfoldable pub contains : ReadyQueue → String → Bool
contains q k = any (λ t. str_eq t.id k) q

unfoldable pub push : ReadyQueue → TaskNode → Result QueueError ReadyQueue
push q t = do
  guard (not (contains q t.id)) (already_queued t.id)
  ok (sort_by sorts_before (q ++ t ∷ []))

unfoldable pub pop : ReadyQueue → Result QueueError (TaskNode × ReadyQueue)
pop [] = err queue_empty
pop (t ∷ q) = ok (t, q)

unfoldable pub peek : ReadyQueue → Result QueueError TaskNode
peek [] = err queue_empty
peek (t ∷ q) = ok t

unfoldable pub remove : ReadyQueue → String → Bool × ReadyQueue
remove [] k = (false, [])
remove (t ∷ q) k =
    let (removed, rest) = remove q k in if str_eq t.id k then (true, q) else (removed, t ∷ rest)

abbrev pub clear : ReadyQueue
clear = []

unfoldable pub size : ReadyQueue → ℕ
size q = length q

unfoldable pub empty : ReadyQueue → Bool
empty q = size q == 0
