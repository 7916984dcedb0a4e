-- ===== src/Tests/Pool.antt =====
-- The task pool with three tasks.
use cppservicelib.Prelude.{
  ◌+◌, ℕ, ◌≡◌, ◌≢◌, refl, true, false, List, [], ◌∷◌, Option, none, some, if◌then◌else◌, ◌==◌,
  arith,
}
use cppservicelib.Pool.{ok, starting, running, stopping, ready, Lifecycle, new_lifecycle}
use cppservicelib.Pool.Executors.{Slots, reconcile}
use cppservicelib.Pool.Steps.{
  Step, claims_start, publishes, finishes_start, claims_stop, stops_manager, finishes_stop,
  finds_ready, steps, IsValid, lifecycle-IsValid,
}
use cppservicelib.Pool.DeadlineHeap.{empty_heap}
use cppservicelib.Pool.TaskPool.{PoolTask, Queue, requeue_to_front}
use cppservicelib.Pool.Fifo.{Holds}
use cppservicelib.Pool.Promotion.{requeue_to_front-Holds}
use cppservicelib.Pool.Admitted.{
  Passes, deadline_added, add_task-Holds, executor_turn_busy, no_task_after_stop,
}
use cppservicelib.Pool.PriorityHeap.Contents.{times}
use cppservicelib.Pool.Admission.{
  TaskPool, Admission, add_task, is_over, admit, check_early, check_locked, insert, runs,
  executor_turn,
}

abbrev linked : Option ℕ → Option ℕ → PoolTask
linked n p = record { next = n; prev = p; in_queue = true; expedited = false; deadline = none }

abbrev three : Queue
three = record {
  tasks = λ t.
      if t == 1
      then linked (some 2) none
      else if t == 2
      then linked (some 3) (some 1)
      else if t == 3
      then linked none (some 2)
      else record {
        next = none;
        prev = none;
        in_queue = false;
        expedited = false;
        deadline = none;
      };
  head = some 1;
  tail = some 3;
  heap = empty_heap;
  count = 3;
}

apart : (a b : ℕ) → (a == b) ≡ false → a ≢ b
apart a b e = ground arith

three-Holds : Holds three (1 ∷ 2 ∷ 3 ∷ [])
three-Holds = record {
  head = refl;
  tail = refl;
  links = (refl, refl, (refl, refl, (refl, refl, tt)));
  distinct = ((apart 1 2 refl, (apart 1 3 refl, tt)), ((apart 2 3 refl, tt), (tt, tt)));
  marked = (refl, (refl, (refl, tt)));
  counted = refl;
}

abbrev live : Lifecycle
live = record {
  state = running;
  startup = ready;
  done = false;
  published = true;
  ready_sent = true;
  manager = true;
  watches = true;
}

abbrev pool : TaskPool
pool = record {
  lifecycle = live;
  slots = record { target = 2; allocated = 2; handles = 2 };
  queue = three;
}

abbrev in_time : Admission
in_time = record { is_cancelled = false; deadline = some 9; now = 5 }

passes : Passes running in_time in_time live
unfolding is_over
passes = (refl, refl, refl, refl, refl)

add_task-Holds_example :
    (r : TaskPool) × (add_task 4 running in_time in_time pool ≡ ok r)
    × Holds r.queue (1 ∷ 2 ∷ 3 ∷ 4 ∷ [])
    × (r.lifecycle ≡ live)
    × (r.slots ≡ record { target = 2; allocated = 2; handles = 2 })
    × ((u : ℕ)
        → (times u r.queue.heap.slots ≡ 0 + deadline_added in_time.deadline 4 u)
          × ((r.queue.tasks u).deadline
              ≡ (if 4 == u then in_time.deadline else (three.tasks u).deadline))
          × ((r.queue.tasks u).expedited ≡ (if 4 == u then false else (three.tasks u).expedited)))
add_task-Holds_example =
    add_task-Holds 4 running in_time in_time pool (1 ∷ 2 ∷ 3 ∷ []) three-Holds
      (apart 4 1 refl, (apart 4 2 refl, (apart 4 3 refl, tt))) passes

requeue_to_front-Holds_example :
    ((requeue_to_front 3 three).0 ≡ true) × Holds (requeue_to_front 3 three).1 (3 ∷ 1 ∷ 2 ∷ [])
requeue_to_front-Holds_example = requeue_to_front-Holds 3 (1 ∷ 2 ∷ []) [] three three-Holds refl

executor_turn_busy_example :
    (q : Queue) × (executor_turn 5 pool ≡ runs 1 (record pool { queue = q }))
    × Holds q (2 ∷ 3 ∷ [])
    × ((q.tasks 1).in_queue ≡ false)
executor_turn_busy_example = executor_turn_busy 5 1 (2 ∷ 3 ∷ []) pool three-Holds refl (omega arith)

abbrev overlap : List Step
overlap =
    claims_start
    ∷ publishes true
    ∷ finds_ready
    ∷ finishes_start
    ∷ claims_stop
    ∷ stops_manager
    ∷ finishes_stop
    ∷ claims_start
    ∷ []

lifecycle-IsValid_example : IsValid (steps overlap new_lifecycle)
lifecycle-IsValid_example = lifecycle-IsValid overlap

abbrev ending : Lifecycle
ending = record live { state = stopping; done = true }

abbrev about_to_run : Lifecycle
about_to_run = record live { state = starting }

abbrev two_slots : Slots
two_slots = record { target = 2; allocated = 2; handles = 2 }

reached : (reconcile 5 (true ∷ []) two_slots).0 ≡ true
unfolding reconcile
reached = refl

abbrev added_to : TaskPool → TaskPool
added_to p = record p { queue = insert 4 (some 9) p.queue }

accepted : add_task 4 running in_time in_time pool ≡ ok (added_to pool)
unfolding add_task admit check_early check_locked is_over
accepted = refl

abbrev ending_pool : TaskPool
ending_pool = record pool { lifecycle = ending }

no_task_after_stop_example : ¬ (
    add_task 4 running in_time in_time (record ending_pool { lifecycle = steps overlap ending })
    ≡ ok (added_to ending_pool))
no_task_after_stop_example =
    no_task_after_stop overlap 4 running in_time in_time ending_pool (added_to ending_pool) refl
