-- ===== src/Pool/Admission.antt =====
-- runtime/pool/taskpool.hpp: `addTask` and `executorLoop`, on the lifecycle, the executor slots and the
-- queue together.
use cppservicelib.Prelude.{
  ℕ, Bool, true, false, not, ◌||◌, Option, none, some, ◌==◌, leb, if◌then◌else◌,
}
use cppservicelib.Pool.{
  Error, Result, ok, err, pool_stopped, not_started, cancelled_error, PoolState, Lifecycle,
  is_running, is_stopping_state,
}
use cppservicelib.Pool.Executors.{Slots, exit_as_excess, exit_executor}
use cppservicelib.Pool.DeadlineHeap.{push}
use cppservicelib.Pool.TaskPool.{Queue, update, due, append, promote_expired, take_head}

pub record TaskPool : Type 0 where
  pub lifecycle : Lifecycle
  pub slots : Slots
  pub queue : Queue

-- What `addTask` reads of its context, at one point: is it cancelled, its deadline, the clock.
pub record Admission : Type 0 where
  pub is_cancelled : Bool
  pub deadline : Option ℕ
  pub now : ℕ

-- `ctx.cancelled()`, or a deadline that has passed
unfoldable pub is_over : Admission → Bool
is_over c = c.is_cancelled || elim c.deadline [ none ↦ false | some d ↦ leb d c.now ]

-- The tests of `addTask` before it has the lock; `none` where it goes on.
unfoldable pub check_early : PoolState → Admission → Option Error
check_early seen c =
    if not (is_running seen)
    then some (if is_stopping_state seen then pool_stopped else not_started)
    else (if is_over c then some cancelled_error else none)

-- The tests of `addTask` under the lock.
unfoldable pub check_locked : Lifecycle → Admission → Option Error
check_locked l c =
    if l.done || not (is_running l.state)
    then some pool_stopped
    else (if is_over c then some cancelled_error else none)

-- `addTask` from `task->deadline = *deadline` to the end. The task `t` is new.
unfoldable pub insert : ℕ → Option ℕ → Queue → Queue
insert t none q = append t (record q {
  tasks =
      update q.tasks t
        (record { next = none; prev = none; in_queue = false; expedited = false; deadline = none });
})
insert t (some d) q =
    let tasks = update q.tasks t (record {
      next = none;
      prev = none;
      in_queue = false;
      expedited = false;
      deadline = some d;
    }) in
    append t (record q { tasks = tasks; heap = push (due tasks) t q.heap })

-- `addTask` under the lock.
unfoldable pub admit : ℕ → Admission → TaskPool → Result TaskPool
admit t c p = elim (check_locked p.lifecycle c) [
  | some e ↦ err e
  | none ↦ ok (record p { queue = insert t c.deadline p.queue })
]

-- `addTask`: the state and the context that it sees at first, and what it sees under the lock.
unfoldable pub add_task : ℕ → PoolState → Admission → Admission → TaskPool → Result TaskPool
add_task t seen early c p = elim (check_early seen early) [ some e ↦ err e | none ↦ admit t c p ]

-- The outcomes of one round of `executorLoop`. A wait that the engine cancels ends the executor by
-- `exit_executor`.
pub data Turn : Type 0 where
  waits : Turn
  exits : TaskPool → Turn
  runs : ℕ → TaskPool → Turn

-- The queue part of a round: the deadlines that passed, then the head.
unfoldable pub next_task : ℕ → Queue → Option (ℕ × Queue)
next_task now q = take_head (promote_expired now q).1

unfoldable pub run_next : TaskPool → Option (ℕ × Queue) → Turn
run_next p none = waits
run_next p (some (t, q)) = runs t (record p { queue = q })

-- A round of `executorLoop` after `shouldExitAsExcess`, which also ends the wait.
unfoldable pub round : ℕ → TaskPool → Bool × Slots → Turn
unfolding run_next
round now p (true, slots) = exits (record p { slots = slots })
round now p (false, slots) =
    if p.queue.count == 0
    then (if p.lifecycle.done then exits (record p { slots = exit_executor p.slots }) else waits)
    else run_next p (next_task now p.queue)

-- One round of `executorLoop`: it waits while there is no task, the pool is not done and the slots are
-- not in excess.
unfoldable pub executor_turn : ℕ → TaskPool → Turn
executor_turn now p = round now p (exit_as_excess p.slots)
