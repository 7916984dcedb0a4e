-- ===== src/Pool/DelayPool/Scheduler.antt =====
-- runtime/pool/delaypool.hpp: the sections of the scheduler, of the coroutines of tasks, and of stop.
use cppservicelib.Prelude.{
  ℕ, ◌-◌, Bool, true, false, List, [], ◌∷◌, none, some, leb, ◌==◌, if◌then◌else◌,
}
use cppservicelib.Pool.{Result, ok, err, self_stop}
use cppservicelib.Pool.DelayPool.{
  created, running, stopping, stopped, failed, DelayPool, with_task, insert_timer, extract_timer,
}

-- `drainCancellations`: the exchange, and then the body of its loop for one task.
unfoldable pub take_inbox : DelayPool → DelayPool
take_inbox p = elim p.drained [ [] ↦ record p { inbox = []; drained = p.inbox } | _ ∷ _ ↦ p ]

-- The key becomes the least time point; the task stays where it is if it is not queued.
unfoldable pub expedite : ℕ → DelayPool → DelayPool
expedite t p =
    if (p.tasks t).queued
    then record p { timers = insert_timer 0 t (extract_timer t p.timers) }
    else p

unfoldable pub drain_one : DelayPool → DelayPool
drain_one p = elim p.drained [ [] ↦ p | t ∷ ts ↦ expedite t (record p { drained = ts }) ]

-- `schedulerLoop` under the lock: the first timer, if its time has come.
unfoldable pub pick : ℕ → DelayPool → DelayPool
pick now p = elim p.timers [
  | [] ↦ p
  | e ∷ es ↦
      if leb e.0 now
      then record p {
        timers = es;
        ready = some e.1;
        tasks = with_task e.1 (record (p.tasks e.1) { queued = false }) p.tasks;
      }
      else p
]

-- `dispatch` of the extracted node, or where that throws, its return to the queue.
unfoldable pub dispatch_ready : Bool → ℕ → DelayPool → DelayPool
dispatch_ready spawned now p = elim p.ready [
  | none ↦ p
  | some t ↦
      if spawned then record p { ready = none; dispatched = t ∷ p.dispatched } else record p {
        ready = none;
        timers = insert_timer now t p.timers;
        tasks = with_task t (record (p.tasks t) { queued = true }) p.tasks;
      }
]

abbrev pub leave_list : ℕ → List ℕ → List ℕ
leave_list t [] = []
leave_list t (u ∷ us) = if u == t then us else u ∷ leave_list t us

-- `execute`, in the coroutine of a detached task: the claim, and the callback begins.
unfoldable pub execute : ℕ → DelayPool → DelayPool
execute t p =
    let q = record p { dispatched = leave_list t p.dispatched } in
    if (p.tasks t).claimed then q else record q {
      tasks = with_task t (record (p.tasks t) { claimed = true }) p.tasks;
      running = t ∷ p.running;
      log = t ∷ p.log;
    }

-- `retire`, when the callback has returned or thrown.
unfoldable pub retire : ℕ → DelayPool → DelayPool
retire t p = record p {
  running = leave_list t p.running;
  finished = t ∷ p.finished;
  pending = p.pending - 1;
}

-- `stop` under its first lock, by the pool that the calling coroutine executes or not: `ok true` owns the
-- stop, `ok false` only waits for its end.
unfoldable pub begin_stop : Bool → DelayPool → Result Bool × DelayPool
begin_stop from_own_task p = if from_own_task then (err self_stop, p) else (elim p.state [
  | stopped ↦ (ok false, p)
  | stopping ↦ (ok false, p)
  | created ↦ (ok true, record p { state = stopping })
  | running ↦ (ok true, record p { state = stopping })
  | failed ↦ (ok true, record p { state = stopping })
])

-- `finishStop`, once `pending` is 0: the scheduler is told to stop.
unfoldable pub stop_scheduler : DelayPool → DelayPool
stop_scheduler p = if p.scheduler_live then record p { scheduler_stopping = true } else p

-- `schedulerLoop`, where it finds `schedulerStopping`.
unfoldable pub scheduler_exit : DelayPool → DelayPool
scheduler_exit p = record p { scheduler_live = false; inbox = []; drained = [] }

-- The end of `finishStop`.
unfoldable pub finish_stop : DelayPool → DelayPool
finish_stop p = record p { state = stopped }
