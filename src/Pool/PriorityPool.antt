-- ===== src/Pool/PriorityPool.antt =====
-- runtime/pool/prioritytaskpool.hpp: what `addTask`, the promotions and `executorLoop` do with the queue.
-- The tests of `addTask` and the lifecycle are those of the task pool.
pub mod Order
pub mod Served
use cppservicelib.Prelude.{
  ℕ, zero, suc, ◌+◌, ◌≡◌, ◌<◌, refl, sym, ap, subst, inl, inr, Bool, true, false, [], ◌∷◌, Option,
  none, some, leb, ◌==◌, if◌then◌else◌, length, Bool-cases, Option-cases, arith,
}
use cppservicelib.Pool.DeadlineHeap.{Heap, push, remove_at, remove}
use cppservicelib.Pool.PriorityHeap.{PriorityTask, heap_sift_up, heap_push, heap_pop}
use cppservicelib.Pool.PriorityHeap.Contents.{times, one, heap_push-times}

pub record PriorityQueue : Type 0 where
  pub tasks : ℕ → PriorityTask
  pub heap : Heap
  pub deadlines : Heap
  pub next_sequence : ℕ

abbrev pub with_task : (ℕ → PriorityTask) → ℕ → PriorityTask → ℕ → PriorityTask
with_task tasks t task u = if t == u then task else tasks u

abbrev pub due_of : (ℕ → PriorityTask) → ℕ → ℕ
due_of tasks t = elim (tasks t).deadline [ none ↦ 0 | some d ↦ d ]

-- `addTask` under the lock, after its tests: the task `t` is new.
unfoldable pub insert_priority : ℕ → ℕ → Option ℕ → PriorityQueue → PriorityQueue
insert_priority t priority deadline q =
    let tasks = with_task q.tasks t (record {
      priority = priority;
      sequence = q.next_sequence;
      deadline = deadline;
      expedited = false;
    }) in
    record {
      tasks = tasks;
      heap = heap_push tasks t q.heap;
      deadlines = elim deadline [ none ↦ q.deadlines | some _ ↦ push (due_of tasks) t q.deadlines ];
      next_sequence = q.next_sequence + 1;
    }

-- The end of `expediteLocked`, at the place of the task in the heap.
unfoldable pub expedite_at : ℕ → ℕ → PriorityQueue → PriorityQueue
expedite_at t i q =
    let tasks = with_task q.tasks t (record (q.tasks t) { expedited = true; priority = 0 }) in
    record q {
      tasks = tasks;
      deadlines = remove (due_of q.tasks) t q.deadlines;
      heap = heap_sift_up tasks i i q.heap;
    }

-- `expediteLocked`
unfoldable pub expedite_locked : ℕ → PriorityQueue → Bool × PriorityQueue
expedite_locked t q = elim (q.heap.index t) [
  | none ↦ (false, q)
  | some i ↦ if (q.tasks t).expedited then (false, q) else (true, expedite_at t i q)
]

-- `promoteExpiredDeadlinesLocked`: each round takes a task out of the heap of deadlines.
unfoldable pub expedite_loop : ℕ → ℕ → ℕ → PriorityQueue → ℕ × PriorityQueue
expedite_loop zero now promoted q = (promoted, q)
expedite_loop (suc fuel) now promoted q = elim q.deadlines.slots [
  | [] ↦ (promoted, q)
  | t ∷ _ ↦
      let (moved, r) =
        expedite_locked t (record q { deadlines = remove_at (due_of q.tasks) 0 q.deadlines }) in
      let rest = expedite_loop fuel now (if moved then promoted + 1 else promoted) r in
      if leb (due_of q.tasks t) now then rest else (promoted, q)
]

unfoldable pub expedite_expired : ℕ → PriorityQueue → ℕ × PriorityQueue
expedite_expired now q = expedite_loop (length q.deadlines.slots) now 0 q

-- `expedite`, of a task that was cancelled: how many tasks it promoted.
unfoldable pub expedite : ℕ → ℕ → PriorityQueue → ℕ × PriorityQueue
expedite now t q =
    let (promoted, p) = expedite_expired now q in
    let (moved, r) = expedite_locked t p in (if moved then promoted + 1 else promoted, r)

-- `executorLoop`, where the heap has a task.
unfoldable pub take_first : ℕ → PriorityQueue → ℕ × PriorityQueue
take_first now q =
    let p = (expedite_expired now q).1 in
    let (t, heap) = heap_pop p.tasks p.heap in
    (t, record p { heap = heap; deadlines = remove (due_of p.tasks) t p.deadlines })

-- A task that enters takes the next sequence number, which later tasks exceed, and its priority; it
-- stands in the heap once more than before, and every other task as often as before.
pub insert_priority-times :
    (t u priority : ℕ) (deadline : Option ℕ) (q : PriorityQueue)
    → let r = insert_priority t priority deadline q in
      ((r.tasks t).sequence ≡ q.next_sequence)
      × ((r.tasks t).priority ≡ priority)
      × (q.next_sequence < r.next_sequence)
      × (times u r.heap.slots ≡ times u q.heap.slots + one t u)
unfolding insert_priority
insert_priority-times t u priority deadline q =
    (ground arith, ground arith, omega arith, heap_push-times _ t u q.heap)

expedite_at_expedited :
    (t i : ℕ) (q : PriorityQueue) → ((expedite_at t i q).tasks t).expedited ≡ true
unfolding expedite_at
expedite_at_expedited t i q = ground arith

expedited_before :
    (t : ℕ) (q : PriorityQueue) → (q.tasks t).expedited ≡ true → expedite_locked t q ≡ (false, q)
unfolding expedite_locked
expedited_before t q e = elim (Option-cases (q.heap.index t)) [
  | inl f ↦ rw (f, expedite_locked) refl
  | inr (i, f) ↦ rw (f, expedite_locked, e) refl
]

not_waiting : (t : ℕ) (q : PriorityQueue) → q.heap.index t ≡ none → expedite_locked t q ≡ (false, q)
unfolding expedite_locked
not_waiting t q f = rw (f, expedite_locked) refl

expedited_first :
    (t i : ℕ) (q : PriorityQueue)
    → q.heap.index t ≡ some i
    → (q.tasks t).expedited ≡ false
    → expedite_locked t q ≡ (true, expedite_at t i q)
unfolding expedite_locked
expedited_first t i q f e = rw (f, expedite_locked, e) refl

-- Of the triggers that promote a task to the least priority, only the first one counts: a second
-- promotion answers `false` and changes nothing, whatever the queue was.
pub expedite_once :
    (t : ℕ) (q : PriorityQueue)
    → let r = (expedite_locked t q).1 in expedite_locked t r ≡ (false, r)
expedite_once t q = elim (Option-cases (q.heap.index t)) [
  | inl f ↦ stays t q (not_waiting t q f)
  | inr (i, f) ↦ elim (Bool-cases (q.tasks t).expedited) [
    | inl e ↦ stays t q (expedited_before t q e)
    | inr e ↦
        subst (λ r. expedite_locked t r ≡ (false, r))
          (sym (ap (λ r. r.1) (expedited_first t i q f e)))
          (expedited_before t _ (expedite_at_expedited t i q))
  ]
]
  where
    stays :
        (t : ℕ) (q : PriorityQueue)
        → expedite_locked t q ≡ (false, q)
        → expedite_locked t (expedite_locked t q).1 ≡ (false, (expedite_locked t q).1)
    stays t q e = subst (λ r. expedite_locked t r ≡ (false, r)) (sym (ap (λ r. r.1) e)) e
