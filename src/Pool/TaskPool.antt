-- ===== src/Pool/TaskPool.antt =====
-- runtime/pool/taskpool.hpp: the FIFO queue of a pool as the code links it, the admission of a task
-- and the turn of an executor. A task is a number, and `tasks` holds its fields; `head` owns the
-- chain of `next`. `started` records the order in which tasks go to executors, newest first, and is
-- no part of the code.
use cppservicelib.Prelude.{
  ℕ, zero, suc, ◌+◌, ◌-◌, Bool, true, false, not, ◌||◌, [], ◌∷◌, Option, none, some, leb, ◌==◌,
  if◌then◌else◌, length,
}
use cppservicelib.Pool.DeadlineHeap.{Heap, remove_at, remove}

pub record PoolTask : Type 0 where
  pub next : Option ℕ
  pub prev : Option ℕ
  pub in_queue : Bool
  pub expedited : Bool
  pub deadline : Option ℕ

pub record Queue : Type 0 where
  pub tasks : ℕ → PoolTask
  pub head : Option ℕ
  pub tail : Option ℕ
  pub heap : Heap
  pub count : ℕ

abbrev pub update : (ℕ → PoolTask) → ℕ → PoolTask → ℕ → PoolTask
update tasks t task u = if t == u then task else tasks u

-- `*task->deadline`, read only of tasks that have one.
abbrev pub due : (ℕ → PoolTask) → ℕ → ℕ
due tasks t = elim (tasks t).deadline [ none ↦ 0 | some d ↦ d ]

-- `t->next = n` and `t->prev = p`
abbrev pub set_next : ℕ → Option ℕ → (ℕ → PoolTask) → ℕ → PoolTask
set_next t n tasks = update tasks t (record (tasks t) { next = n })

abbrev pub set_prev : ℕ → Option ℕ → (ℕ → PoolTask) → ℕ → PoolTask
set_prev t p tasks = update tasks t (record (tasks t) { prev = p })

abbrev pub set_prev? : Option ℕ → Option ℕ → (ℕ → PoolTask) → ℕ → PoolTask
set_prev? none p tasks = tasks
set_prev? (some t) p tasks = set_prev t p tasks

abbrev pub set_next? : Option ℕ → Option ℕ → (ℕ → PoolTask) → ℕ → PoolTask
set_next? none n tasks = tasks
set_next? (some t) n tasks = set_next t n tasks

-- The end of `addTask`: the task behind `tail_`.
unfoldable pub append : ℕ → Queue → Queue
append t q = elim q.tail [
  | some last ↦
      let linked = set_prev t (some last) (set_next last (some t) q.tasks) in
      record q {
        tasks = update linked t (record (linked t) { in_queue = true });
        tail = some t;
        count = q.count + 1;
      }
  | none ↦ record q {
    tasks = update q.tasks t (record (q.tasks t) { in_queue = true });
    head = some t;
    tail = some t;
    count = q.count + 1;
  }
]

abbrev pub is_task : Option ℕ → ℕ → Bool
is_task none t = false
is_task (some u) t = u == t

-- The links of `requeueToFrontLocked`, for a task that is not at the head, with its `prev`, its
-- `next` and the head: it has a `prev`, and there is a head.
unfoldable pub relink : ℕ → Option ℕ → Option ℕ → Option ℕ → Queue → Queue
relink t before behind head q =
    -- `if (task->next) task->next->prev = task->prev; else tail_ = task->prev;`
    let unlinked = set_next? before behind (set_prev? behind before q.tasks) in
    record q {
      tasks =
          set_prev? head (some t)
            (update unlinked t (record (unlinked t) { next = head; prev = none }));
      head = some t;
      tail = elim behind [ some _ ↦ q.tail | none ↦ before ];
    }

unfoldable pub relink_front : ℕ → Queue → Queue
relink_front t q = relink t (q.tasks t).prev (q.tasks t).next q.head q

-- `task->expedited = true; deadlineHeapRemoveLocked(task);`
abbrev pub mark : ℕ → Queue → Queue
mark t q = record q {
  tasks = update q.tasks t (record (q.tasks t) { expedited = true });
  heap = remove (due q.tasks) t q.heap;
}

-- `requeueToFrontLocked`
unfoldable pub requeue_to_front : ℕ → Queue → Bool × Queue
requeue_to_front t q =
    if not (q.tasks t).in_queue || (q.tasks t).expedited
    then (false, q)
    else (true, if is_task q.head t then mark t q else relink_front t (mark t q))

-- `promoteExpiredDeadlinesLocked`: each round takes a task out of the heap, so `fuel` of its size
-- is enough.
unfoldable pub promote_loop : ℕ → ℕ → ℕ → Queue → ℕ × Queue
promote_loop zero now promoted q = (promoted, q)
promote_loop (suc fuel) now promoted q = elim q.heap.slots [
  | [] ↦ (promoted, q)
  | t ∷ _ ↦
      let (moved, r) = requeue_to_front t (record q { heap = remove_at (due q.tasks) 0 q.heap }) in
      let rest = promote_loop fuel now (if moved then promoted + 1 else promoted) r in
      if leb (due q.tasks t) now then rest else (promoted, q)
]

unfoldable pub promote_expired : ℕ → Queue → ℕ × Queue
promote_expired now q = promote_loop (length q.heap.slots) now 0 q

-- `requeueToFront`, of a task that was cancelled: how many tasks it promoted.
unfoldable pub cancel_task : ℕ → ℕ → Queue → ℕ × Queue
cancel_task now t q =
    let (promoted, p) = promote_expired now q in
    let (moved, r) = requeue_to_front t p in (if moved then promoted + 1 else promoted, r)

-- `executorLoop`: the task at the head leaves the queue, and `rest` is its `next`.
unfoldable pub leave : ℕ → Option ℕ → Queue → Queue
leave t rest q =
    let behind = set_prev? rest none q.tasks in
    let tasks = update behind t (record (behind t) { next = none; in_queue = false }) in
    record q {
      tasks = tasks;
      head = rest;
      tail = elim rest [ none ↦ none | some _ ↦ q.tail ];
      heap = remove (due tasks) t q.heap;
      count = q.count - 1;
    }

-- `none` at an empty queue, where the code does not come.
unfoldable pub take_head : Queue → Option (ℕ × Queue)
unfolding leave
take_head q = elim q.head [ none ↦ none | some t ↦ some (t, leave t (q.tasks t).next q) ]
