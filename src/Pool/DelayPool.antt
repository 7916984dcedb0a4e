-- ===== src/Pool/DelayPool.antt =====
-- runtime/pool/delaypool.hpp: the delay pool. Each function is one section: what a thread does under
-- `mu`, or with the atomics of a task. A task is a number; `log` records the callbacks that have begun,
-- newest first, and with `running` and `finished` is no part of the code.
pub mod Scheduler
pub mod Timers
pub mod Invariant
pub mod Sections
pub mod Runs
use cppservicelib.Prelude.{
  ℕ, zero, suc, ◌+◌, ◌-◌, ◌≤◌, Bool, true, false, not, ◌&&◌, ◌||◌, List, [], ◌∷◌, Option, none,
  some, leb, ltb, ◌==◌, if◌then◌else◌, ℤ, pos, negsuc, is_positive, is_some,
}
use cppservicelib.Store.HashJoin.{time_max}
use cppservicelib.Pool.{
  Error, Result, ok, err, already_started, pool_stopped, not_started, cancelled_error, spawn_error,
  self_stop,
}

pub data DelayState : Type 0 where
  created running stopping stopped failed : DelayState

pub record DelayTask : Type 0 where
  pub claimed : Bool
  pub cancel_requested : Bool
  pub queued : Bool
  pub admitted : Bool
  pub cancellation_published : Bool
  pub deadline_wins : Bool

pub record DelayPool : Type 0 where
  pub state : DelayState
  pub pending : ℕ
  pub tasks : ℕ → DelayTask
  -- how many tasks were accepted
  pub made : ℕ
  -- keys and tasks, in the order of the multimap
  pub timers : List (ℕ × ℕ)
  -- `cancelledHead`, and what the scheduler took of it
  pub inbox : List ℕ
  pub drained : List ℕ
  -- the node that the scheduler has extracted
  pub ready : Option ℕ
  -- the coroutines that were detached and have not begun
  pub dispatched : List ℕ
  pub running : List ℕ
  pub finished : List ℕ
  pub log : List ℕ
  -- `tasks` and `scheduler` have values
  pub storage : Bool
  pub scheduler_live : Bool
  pub scheduler_stopping : Bool

abbrev pub no_task : DelayTask
no_task = record {
  claimed = false;
  cancel_requested = false;
  queued = false;
  admitted = false;
  cancellation_published = false;
  deadline_wins = false;
}

abbrev pub new_pool : DelayPool
new_pool = record {
  state = created;
  pending = 0;
  tasks = λ t. no_task;
  made = 0;
  timers = [];
  inbox = [];
  drained = [];
  ready = none;
  dispatched = [];
  running = [];
  finished = [];
  log = [];
  storage = false;
  scheduler_live = false;
  scheduler_stopping = false;
}

abbrev pub with_task : ℕ → DelayTask → (ℕ → DelayTask) → ℕ → DelayTask
with_task t task tasks u = if t == u then task else tasks u

-- `saturatedAdd`
unfoldable pub add_delay : ℕ → ℤ → ℕ
add_delay now (negsuc n) = now
add_delay now (pos n) = if leb (time_max - now) n then time_max else now + n

-- `timers.emplace` and `timers.insert`: behind the entries with the same key.
unfoldable pub insert_timer : ℕ → ℕ → List (ℕ × ℕ) → List (ℕ × ℕ)
insert_timer key t [] = (key, t) ∷ []
insert_timer key t (e ∷ es) = if ltb key e.0 then (key, t) ∷ e ∷ es else e ∷ insert_timer key t es

-- `timers.extract(*task->queued)`
unfoldable pub extract_timer : ℕ → List (ℕ × ℕ) → List (ℕ × ℕ)
extract_timer t [] = []
extract_timer t (e ∷ es) = if e.1 == t then es else e ∷ extract_timer t es

-- `ensureTaskStorageLocked`, where the engine can spawn the scheduler or not.
unfoldable pub ensure_storage : Bool → DelayPool → Bool × DelayPool
ensure_storage spawned p =
    if p.storage
    then (true, p)
    else if spawned
    then (true, record p { storage = true; scheduler_live = true })
    else (false, record p { state = failed })

-- `start`
unfoldable pub start : Bool → DelayPool → Result (Unit {0}) × DelayPool
start spawned p = elim p.state [
  | created ↦
      let (fine, q) = ensure_storage spawned p in
      if fine then (ok tt, record q { state = running }) else (err spawn_error, q)
  | stopping ↦ (err pool_stopped, p)
  | stopped ↦ (err pool_stopped, p)
  | running ↦ (err already_started, p)
  | failed ↦ (err already_started, p)
]

-- What `delay` reads of its context and of the clock.
pub record Request : Type 0 where
  pub is_cancelled : Bool
  pub deadline : Option ℕ
  pub now : ℕ
  pub delay : ℤ

-- `runAt` and `contextDeadlineWins`
unfoldable pub run_at : Request → ℕ × Bool
run_at r =
    let at = add_delay r.now r.delay in
    elim r.deadline [ none ↦ (at, false) | some d ↦ if ltb d at then (d, true) else (at, false) ]

-- The tests of `delay` that throw `PoolCancelledError`.
unfoldable pub is_rejected : Request → Bool
is_rejected r =
    r.is_cancelled
    || (leb (run_at r).0 r.now && elim r.deadline [ none ↦ false | some d ↦ leb d r.now ])

-- `publishCancellation`
unfoldable pub publish_cancellation : ℕ → DelayPool → DelayPool
publish_cancellation t p = if (p.tasks t).cancellation_published then p else record p {
  tasks = with_task t (record (p.tasks t) { cancellation_published = true }) p.tasks;
  inbox = t ∷ p.inbox;
}

-- The engine can spawn the scheduler, and the task; the task was cancelled before its key was chosen, and
-- before `admitted` was stored.
pub record Events : Type 0 where
  pub scheduler_spawned : Bool
  pub task_spawned : Bool
  pub cancelled_early : Bool
  pub cancelled_meanwhile : Bool

-- `delay` under the lock, with work that is due: its coroutine is detached at once.
unfoldable pub admit_now : Bool → Events → DelayPool → Result (Unit {0}) × DelayPool
admit_now wins e p = if not e.task_spawned then (err spawn_error, p) else (
  ok tt,
  record p {
    pending = p.pending + 1;
    made = p.made + 1;
    tasks = with_task p.made (record no_task { deadline_wins = wins }) p.tasks;
    dispatched = p.made ∷ p.dispatched;
  },
)

-- The same, with work for later.
unfoldable pub admit_later : ℕ → Bool → Events → DelayPool → DelayPool
admit_later at wins e p =
    let key = if e.cancelled_early then 0 else at in
    let requested = e.cancelled_early || e.cancelled_meanwhile in
    let queued_pool = record p {
      pending = p.pending + 1;
      made = p.made + 1;
      tasks =
          with_task p.made
            (record no_task {
              cancel_requested = requested;
              queued = true;
              admitted = true;
              deadline_wins = wins;
            })
            p.tasks;
      timers = insert_timer key p.made p.timers;
    } in
    if requested then publish_cancellation p.made queued_pool else queued_pool

unfoldable pub is_closed : DelayState → Option Error
is_closed stopping = some pool_stopped
is_closed stopped = some pool_stopped
is_closed failed = some not_started
is_closed created = none
is_closed running = none

-- `delay` behind `ensureTaskStorageLocked`.
unfoldable pub admit : Request → Events → Bool × DelayPool → Result (Unit {0}) × DelayPool
unfolding admit_now admit_later
admit r e (false, p) = (err spawn_error, p)
admit r e (true, p) =
    if leb (run_at r).0 r.now
    then admit_now (run_at r).1 e p
    else (ok tt, admit_later (run_at r).0 (run_at r).1 e p)

-- `delay`
unfoldable pub delay : Request → Events → DelayPool → Result (Unit {0}) × DelayPool
delay r e p = if is_rejected r then (err cancelled_error, p) else (elim (is_closed p.state) [
  | some f ↦ (err f, p)
  | none ↦ admit r e (ensure_storage e.scheduler_spawned p)
])

-- The stop callback of a task.
unfoldable pub request_cancel : ℕ → DelayPool → DelayPool
request_cancel t p =
    if (p.tasks t).cancel_requested
    then p
    else let q = record p {
      tasks = with_task t (record (p.tasks t) { cancel_requested = true }) p.tasks;
    } in
      if (p.tasks t).admitted then publish_cancellation t q else q
