-- ===== src/Tests/PriorityPool.antt =====
-- The priority pool at small inputs.
use cppservicelib.Prelude.{ℕ, refl, ◌≡◌, false, none, some}
use cppservicelib.Pool.DeadlineHeap.{empty_heap}
use cppservicelib.Pool.PriorityHeap.{
  PriorityTask, comes_before, before, heap_swap, heap_sift_up, heap_push,
}
use cppservicelib.Pool.PriorityPool.{
  PriorityQueue, insert_priority, expedite_expired, expedite_loop, take_first,
}
use cppservicelib.Pool.PriorityPool.Served.{Queued, enter, opened, later, first_task_is_taken}

abbrev ranked : ℕ → ℕ → PriorityTask
ranked p s = record { priority = p; sequence = s; deadline = none; expedited = false }

abbrev no_tasks : PriorityQueue
no_tasks = record {
  tasks = λ t. ranked 0 0;
  heap = empty_heap;
  deadlines = empty_heap;
  next_sequence = 0;
}

-- The task 8 with the priority 5, then the task 9 with the priority 2.
abbrev first_waits : PriorityQueue
first_waits = insert_priority 8 5 none no_tasks

abbrev both_wait : PriorityQueue
both_wait = insert_priority 9 2 none first_waits

both_wait-Queued : Queued both_wait
unfolding insert_priority heap_push heap_sift_up heap_swap comes_before
both_wait-Queued =
    later first_waits both_wait
      (later no_tasks first_waits (opened (λ t. ranked 0 0) 0) (enter 8 5 none no_tasks refl))
      (enter 9 2 none first_waits refl)

first_task_is_taken_example :
    let p = (expedite_expired 0 both_wait).1 in
    let taken = (take_first 0 both_wait).0 in
    (p.heap.index taken ≡ some 0) × (before p.tasks 8 taken ≡ false)
unfolding insert_priority heap_push heap_sift_up heap_swap comes_before expedite_expired
    expedite_loop
first_task_is_taken_example = first_task_is_taken 0 8 1 both_wait both_wait-Queued refl
