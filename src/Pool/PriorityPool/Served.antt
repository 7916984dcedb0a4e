-- ===== src/Pool/PriorityPool/Served.antt =====
-- runtime/pool/prioritytaskpool.hpp: the histories of a queue, and the order in which the executors take its tasks.
use cppservicelib.Prelude.{ℕ, ◌≡◌, ◌<◌, subst, false, Option, none, some, length, arith}
use cppservicelib.Pool.DeadlineHeap.{empty_heap}
use cppservicelib.Pool.PriorityHeap.{PriorityTask, before, heap_pop}
use cppservicelib.Pool.PriorityHeap.Contents.{heap_pop-times}
use cppservicelib.Pool.PriorityHeap.Down.{heap_pop-first}
use cppservicelib.Pool.PriorityPool.{
  PriorityQueue, insert_priority, expedite_expired, expedite, take_first,
}
use cppservicelib.Pool.PriorityPool.Order.{
  IsOrdered, insert_priority-IsOrdered, expedite_expired-IsOrdered, expedite-IsOrdered,
  take_first-IsOrdered,
}

-- What changes the queue, under the lock of the pool: a task that does not wait enters, the executors
-- and the cancellations promote, an executor takes from a heap with a task.
pub data QueueStep : PriorityQueue → PriorityQueue → Type 0 where
  enter :
      (t priority : ℕ) (deadline : Option ℕ) (q : PriorityQueue)
      → q.heap.index t ≡ none
      → QueueStep q (insert_priority t priority deadline q)
  promote : (now t : ℕ) (q : PriorityQueue) → QueueStep q (expedite now t q).1
  serve : (now : ℕ) (q : PriorityQueue) → 0 < length q.heap.slots → QueueStep q (take_first now q).1

-- The queues of a pool that started with an empty one.
pub data Queued : PriorityQueue → Type 0 where
  opened :
      (tasks : ℕ → PriorityTask) (next : ℕ)
      → Queued (record {
        tasks = tasks;
        heap = empty_heap;
        deadlines = empty_heap;
        next_sequence = next;
      })
  later : (q r : PriorityQueue) → Queued q → QueueStep q r → Queued r

QueueStep-IsOrdered : (q r : PriorityQueue) → QueueStep q r → IsOrdered q → IsOrdered r
QueueStep-IsOrdered _ _ (enter t priority deadline q e) v =
    insert_priority-IsOrdered t priority deadline q e v
QueueStep-IsOrdered _ _ (promote now t q) v = expedite-IsOrdered now t q v
QueueStep-IsOrdered _ _ (serve now q k) v = take_first-IsOrdered now q v k

Queued-IsOrdered : (q : PriorityQueue) → Queued q → IsOrdered q
Queued-IsOrdered _ (opened tasks next) = record {
  heap = λ c p k. absurd (omega arith);
  indexed = record { at = λ i k. absurd (omega arith); held = λ t i e. absurd (cc) };
}
Queued-IsOrdered r (later q _ before step) =
    QueueStep-IsOrdered q r step (Queued-IsOrdered q before)

-- In every queue that enters, promotions and takes make of an empty one: when the promotions of an
-- executor leave a task `t` waiting, the executor takes a task that was waiting too and that `t` does
-- not come before, by the priorities and sequence numbers that the promotions left.
pub first_task_is_taken :
    (now t i : ℕ) (q : PriorityQueue)
    → Queued q
    → (expedite_expired now q).1.heap.index t ≡ some i
    → let p = (expedite_expired now q).1 in
      let taken = (take_first now q).0 in
      (p.heap.index taken ≡ some 0) × (before p.tasks t taken ≡ false)
unfolding take_first
first_task_is_taken now t i q run e =
    let p = (expedite_expired now q).1 in
    let v = expedite_expired-IsOrdered now q (Queued-IsOrdered q run) in
    let inside = v.indexed.held t i e in
    let first = heap_pop-first p.tasks p.heap i v.heap (inside.0) in
    let taken = (heap_pop-times p.tasks 0 p.heap (omega (arith, inside.0))).0 in
    (
      rw taken (v.indexed.at 0 (omega (arith, inside.0))),
      subst (λ u. before p.tasks u (heap_pop p.tasks p.heap).0 ≡ false) (inside.1) (first.0),
    )
