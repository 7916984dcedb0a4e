-- ===== src/Pool/Admitted.antt =====
-- runtime/pool/taskpool.hpp: what `addTask` does with a task, and that no executor leaves tasks
-- waiting.
use cppservicelib.Prelude.{
  ℕ, ◌≤◌, ◌≡◌, ◌≢◌, ◌+◌, if◌then◌else◌, refl, sym, ap, ◌∙◌, inl, inr, true, false, List, [], ◌∷◌,
  ◌++◌, Option, none, some, ◌==◌, ==_refl, Option-cases, arith,
}
use cppservicelib.Pool.{Error, ok, err, PoolState, Lifecycle, is_running, is_stopping_state}
use cppservicelib.Pool.Executors.{Slots, exit_as_excess}
use cppservicelib.Pool.DeadlineHeap.{Heap, push}
use cppservicelib.Pool.DeadlineHeap.Contents.{push-times}
use cppservicelib.Pool.PriorityHeap.Contents.{times, one}
use cppservicelib.Pool.TaskPool.{
  PoolTask, Queue, update, due, append, promote_expired, take_head, promote_loop,
}
use cppservicelib.Pool.Links.{Fresh, SameLinks, Linked-frame, All-Fresh}
use cppservicelib.Pool.Fifo.{Holds, append-Holds, take_head-Holds, All-both}
use cppservicelib.Pool.Steps.{Step, steps, stopping_never_runs}
use cppservicelib.Pool.Admission.{
  TaskPool, Admission, is_over, check_early, check_locked, insert, admit, add_task, runs, run_next,
  next_task, round, executor_turn,
}

module _ (t : ℕ) (task : PoolTask) (tasks : ℕ → PoolTask) where
  update_links : (y : ℕ) → t ≢ y → SameLinks tasks (update tasks t task) y
  update_links y k = ground arith

  update_marked :
      (y : ℕ) → t ≢ y → (tasks y).in_queue ≡ true → (update tasks t task y).in_queue ≡ true
  update_marked y k h = ground arith

  update_self : update tasks t task t ≡ task
  update_self = rw (==_refl t) refl

-- The fields of a task outside the queue may change.
update-Holds :
    (t : ℕ) (task : PoolTask) (heap : Heap) (q : Queue) (xs : List ℕ)
    → Holds q xs
    → Fresh t xs
    → Holds (record q { tasks = update q.tasks t task; heap = heap }) xs
update-Holds t task heap q xs h f = record {
  head = h.head;
  tail = h.tail;
  links =
      Linked-frame q.tasks (update q.tasks t task) none none xs
        (All-Fresh t xs (update_links t task q.tasks) f) h.links;
  distinct = h.distinct;
  marked =
      All-both (λ x. t ≢ x) (λ x. (q.tasks x).in_queue ≡ true) _ xs (update_marked t task q.tasks) f
        h.marked;
  counted = h.counted;
}

insert-Holds :
    (t : ℕ) (d : Option ℕ) (q : Queue) (xs : List ℕ)
    → Holds q xs
    → Fresh t xs
    → Holds (insert t d q) (xs ++ t ∷ [])
unfolding insert
insert-Holds t none q xs h f =
    append-Holds t _ xs (update-Holds t _ q.heap q xs h f) f
      (ap (λ r. r.next) (update_self t _ q.tasks)) (ap (λ r. r.prev) (update_self t _ q.tasks))
insert-Holds t (some d) q xs h f =
    append-Holds t _ xs (update-Holds t _ _ q xs h f) f (ap (λ r. r.next) (update_self t _ q.tasks))
      (ap (λ r. r.prev) (update_self t _ q.tasks))

-- The tests of `addTask` all pass.
abbrev pub Passes : PoolState → Admission → Admission → Lifecycle → Type 0
Passes seen early c l =
    (is_running seen ≡ true)
    × (is_over early ≡ false)
    × (l.done ≡ false)
    × (is_running l.state ≡ true)
    × (is_over c ≡ false)

check_early_pass :
    (seen : PoolState) (c : Admission)
    → check_early seen c ≡ none
    → (is_running seen ≡ true) × (is_over c ≡ false)
unfolding check_early
check_early_pass seen c e = ground arith

check_locked_pass :
    (l : Lifecycle) (c : Admission)
    → check_locked l c ≡ none
    → (l.done ≡ false) × (is_running l.state ≡ true) × (is_over c ≡ false)
unfolding check_locked
check_locked_pass l c e = ground arith

check_early-none :
    (seen : PoolState) (c : Admission)
    → is_running seen ≡ true
    → is_over c ≡ false
    → check_early seen c ≡ none
unfolding check_early
check_early-none seen c a b = rw (a, b) refl

check_locked-none :
    (l : Lifecycle) (c : Admission)
    → l.done ≡ false
    → is_running l.state ≡ true
    → is_over c ≡ false
    → check_locked l c ≡ none
unfolding check_locked
check_locked-none l c a b d = rw (a, b, d) refl

module _ (t : ℕ) (seen : PoolState) (early c : Admission) (p : TaskPool) where
  add_task_refused :
      (f : Error) → check_early seen early ≡ some f → add_task t seen early c p ≡ err f
  unfolding add_task
  add_task_refused f e = rw (e, add_task) refl

  add_task_locked : check_early seen early ≡ none → add_task t seen early c p ≡ admit t c p
  unfolding add_task
  add_task_locked e = rw (e, add_task) refl

  admit_refused : (f : Error) → check_locked p.lifecycle c ≡ some f → admit t c p ≡ err f
  unfolding admit
  admit_refused f e = rw (e, admit) refl

  admit_ok :
      check_locked p.lifecycle c ≡ none
      → admit t c p ≡ ok (record p { queue = insert t c.deadline p.queue })
  unfolding admit
  admit_ok e = rw (e, admit) refl

err_ok : {f : Error} {r : TaskPool} → err f ≡ ok r → ⊥
err_ok e = cc

append_rest :
    (t u : ℕ) (q : Queue)
    → ((append t q).heap ≡ q.heap)
      × (((append t q).tasks u).deadline ≡ (q.tasks u).deadline)
      × (((append t q).tasks u).expedited ≡ (q.tasks u).expedited)
unfolding append
append_rest t u q = elim (Option-cases q.tail) [
  | inl e ↦ ground (arith, e)
  | inr (last, e) ↦ ground (arith, e)
]

-- The heap gets the task where it has a deadline, and the other tasks keep theirs.
abbrev pub deadline_added : Option ℕ → ℕ → ℕ → ℕ
deadline_added none t u = 0
deadline_added (some d) t u = one t u

insert_deadlines :
    (t : ℕ) (d : Option ℕ) (u : ℕ) (q : Queue)
    → (times u (insert t d q).heap.slots ≡ times u q.heap.slots + deadline_added d t u)
      × (((insert t d q).tasks u).deadline ≡ (if t == u then d else (q.tasks u).deadline))
      × (((insert t d q).tasks u).expedited ≡ (if t == u then false else (q.tasks u).expedited))
unfolding insert
insert_deadlines t none u q =
    let (heap, deadline, expedited) = append_rest t u (record q {
      tasks = update q.tasks t (record {
        next = none;
        prev = none;
        in_queue = false;
        expedited = false;
        deadline = none;
      });
    }) in
    (
      ap (λ h. times u h.slots) heap ∙ omega arith,
      deadline ∙ ground arith,
      expedited ∙ ground arith,
    )
insert_deadlines t (some d) u q =
    let tasks = update q.tasks t (record {
      next = none;
      prev = none;
      in_queue = false;
      expedited = false;
      deadline = some d;
    }) in
    let (heap, deadline, expedited) =
      append_rest t u (record q { tasks = tasks; heap = push (due tasks) t q.heap }) in
    (
      ap (λ h. times u h.slots) heap ∙ push-times (due tasks) t u q.heap,
      deadline ∙ ground arith,
      expedited ∙ ground arith,
    )

-- Where the pool runs, is not done, and the context is neither cancelled nor past its deadline at
-- both tests, `addTask` puts a task that does not wait yet behind all waiting ones; the task gets the
-- deadline of its context and is not expedited, and enters the heap of deadlines once where it has one;
-- every other task keeps its deadline, its flag and its entries in the heap; and the
-- lifecycle and the executor slots stay.
pub add_task-Holds :
    (t : ℕ) (seen : PoolState) (early c : Admission) (p : TaskPool) (xs : List ℕ)
    → Holds p.queue xs
    → Fresh t xs
    → Passes seen early c p.lifecycle
    → (r : TaskPool) × (add_task t seen early c p ≡ ok r)
      × Holds r.queue (xs ++ t ∷ [])
      × (r.lifecycle ≡ p.lifecycle)
      × (r.slots ≡ p.slots)
      × ((u : ℕ)
          → (times u r.queue.heap.slots
              ≡ times u p.queue.heap.slots + deadline_added c.deadline t u)
            × ((r.queue.tasks u).deadline
                ≡ (if t == u then c.deadline else (p.queue.tasks u).deadline))
            × ((r.queue.tasks u).expedited
                ≡ (if t == u then false else (p.queue.tasks u).expedited)))
add_task-Holds t seen early c p xs h f pass = (
  record p { queue = insert t c.deadline p.queue },
  add_task_locked t seen early c p (check_early-none seen early pass.0 pass.1)
      ∙ admit_ok t seen early c p (check_locked-none p.lifecycle c pass.2 pass.3 pass.4),
  insert-Holds t c.deadline p.queue xs h f,
  refl,
  refl,
  λ u. insert_deadlines t c.deadline u p.queue,
)

-- `addTask` accepts a task only where the pool ran when it was called, still runs and is not done
-- under the lock, and the context was neither cancelled nor past its deadline at both points.
pub add_task_accepts :
    (t : ℕ) (seen : PoolState) (early c : Admission) (p r : TaskPool)
    → add_task t seen early c p ≡ ok r
    → Passes seen early c p.lifecycle
add_task_accepts t seen early c p r e = elim (Option-cases (check_early seen early)) [
  | inl a ↦ elim (Option-cases (check_locked p.lifecycle c)) [
    | inl b ↦
        let (x, y) = check_early_pass seen early a in
        let (u, v, w) = check_locked_pass p.lifecycle c b in (x, y, u, v, w)
    | inr (f, b) ↦ absurd (
        err_ok
          (sym (admit_refused t seen early c p f b) ∙ sym (add_task_locked t seen early c p a) ∙ e))
  ]
  | inr (f, b) ↦ absurd (err_ok (sym (add_task_refused t seen early c p f b) ∙ e))
]

not_excess : (s : Slots) → s.allocated ≤ s.target → exit_as_excess s ≡ (false, s)
unfolding exit_as_excess
not_excess s e = ground arith

promote_nothing : (now : ℕ) (q : Queue) → q.heap.slots ≡ [] → promote_expired now q ≡ (0, q)
unfolding promote_expired promote_loop
promote_nothing now q e = rw e refl

round_runs :
    (now t : ℕ) (p : TaskPool) (slots : Slots) (q : Queue)
    → (p.queue.count == 0) ≡ false
    → next_task now p.queue ≡ some (t, q)
    → round now p (false, slots) ≡ runs t (record p { queue = q })
unfolding round run_next
round_runs now t p slots q e f = rw (e, f) refl

next_task_head :
    (now t : ℕ) (q r : Queue)
    → q.heap.slots ≡ []
    → take_head q ≡ some (t, r)
    → next_task now q ≡ some (t, r)
unfolding next_task
next_task_head now t q r e f = ap (λ z. take_head z.1) (promote_nothing now q e) ∙ f

-- While tasks wait and no deadline is pending, an executor that is not in excess neither waits nor
-- ends, also while the pool drains: it runs the task at the head of the
-- queue and leaves the others in order.
pub executor_turn_busy :
    (now t : ℕ) (xs : List ℕ) (p : TaskPool)
    → Holds p.queue (t ∷ xs)
    → p.queue.heap.slots ≡ []
    → p.slots.allocated ≤ p.slots.target
    → (q : Queue) × (executor_turn now p ≡ runs t (record p { queue = q }))
      × Holds q xs
      × ((q.tasks t).in_queue ≡ false)
unfolding executor_turn
executor_turn_busy now t xs p h heap e =
    let (q, taken, held, gone) = take_head-Holds t p.queue xs h in
    (
      q,
      rw (not_excess p.slots e) (
          round_runs now t p p.slots q (ground (arith, h.counted))
            (next_task_head now t p.queue q heap taken)),
      held,
      gone,
    )

-- Once a pool drains, stops or is stopped, no call of `addTask` accepts a task, whatever it saw before
-- and whatever steps of the lifecycle came in between.
pub no_task_after_stop :
    (xs : List Step) (t : ℕ) (seen : PoolState) (early c : Admission) (p r : TaskPool)
    → is_stopping_state p.lifecycle.state ≡ true
    → ¬ (add_task t seen early c (record p { lifecycle = steps xs p.lifecycle }) ≡ ok r)
no_task_after_stop xs t seen early c p r h e =
    let pass =
      add_task_accepts t seen early c (record p { lifecycle = steps xs p.lifecycle }) r e in
    let quiet = stopping_never_runs xs p.lifecycle h in
    let runs_still : is_running (steps xs p.lifecycle).state ≡ true = pass.3 in cc
