-- ===== src/Pool/PriorityPool/Order.antt =====
-- runtime/pool/prioritytaskpool.hpp: the heap stays ordered.
use cppservicelib.Prelude.{
  ℕ, zero, suc, ◌≡◌, ◌<◌, refl, ◌∙◌, inl, inr, Bool, true, false, ◌⊎◌, List, [], ◌∷◌, Option, none,
  some, leb, if_elim, length, Option-cases, arith,
}
use cppservicelib.Pool.DeadlineHeap.{Heap, slot, remove_at}
use cppservicelib.Pool.PriorityHeap.{PriorityTask, comes_before}
use cppservicelib.Pool.PriorityHeap.Contents.{heap_sift_up-Same}
use cppservicelib.Pool.PriorityHeap.Order.{late_trans, parent_of, IsHeap}
use cppservicelib.Pool.PriorityHeap.Up.{UpInv, heap_sift_up-IsHeap, heap_push-IsHeap}
use cppservicelib.Pool.PriorityHeap.Down.{heap_pop-first}
use cppservicelib.Pool.PriorityHeap.Index.{
  IsIndexed, heap_sift_up-IsIndexed, heap_push-IsIndexed, heap_pop-IsIndexed,
}
use cppservicelib.Pool.PriorityPool.{
  PriorityQueue, with_task, due_of, insert_priority, expedite_at, expedite_locked, expedite_loop,
  expedite_expired, expedite, take_first,
}

-- The heap is ordered by the priorities that the tasks have now.
pub record IsOrdered (q : PriorityQueue) : Type 0 where
  pub heap : IsHeap q.tasks q.heap
  pub indexed : IsIndexed q.heap

promoted_late :
    (a b : PriorityTask)
    → comes_before b a ≡ false
    → comes_before b (record a { expedited = true; priority = 0 }) ≡ false
unfolding comes_before
promoted_late a b h = ground arith

-- Other tasks do not feel the change of one.
with_task-IsHeap :
    (tasks : ℕ → PriorityTask) (t : ℕ) (task : PriorityTask) (h : Heap)
    → h.index t ≡ none
    → IsIndexed h
    → IsHeap tasks h
    → IsHeap (with_task tasks t task) h
with_task-IsHeap tasks t task h e v o = λ c p q. ground (arith, o c, v.at c, v.at (parent_of c))

pub insert_priority-IsOrdered :
    (t priority : ℕ) (deadline : Option ℕ) (q : PriorityQueue)
    → q.heap.index t ≡ none
    → IsOrdered q
    → IsOrdered (insert_priority t priority deadline q)
unfolding insert_priority
insert_priority-IsOrdered t priority deadline q e v = record {
  heap = heap_push-IsHeap _ t q.heap (with_task-IsHeap q.tasks t _ q.heap e v.indexed v.heap);
  indexed = heap_push-IsIndexed _ t q.heap e v.indexed;
}

promoted-UpInv :
    (tasks : ℕ → PriorityTask) (t i : ℕ) (h : Heap)
    → h.index t ≡ some i
    → IsIndexed h
    → IsHeap tasks h
    → UpInv (with_task tasks t (record (tasks t) { expedited = true; priority = 0 })) h i
promoted-UpInv tasks t i h e v o = record {
  inside = (v.held t i e).0;
  edges = λ c p q r. ground (
    arith,
    o c,
    v.at c,
    v.at (parent_of c),
    v.held t i,
    promoted_late (tasks t) (tasks (slot h c)),
  );
  bridged = λ c p q r s. ground (
    arith,
    o c,
    o i,
    v.at c,
    v.at (parent_of i),
    v.held t i,
    late_trans (tasks (slot h (parent_of i))) (tasks t) (tasks (slot h c)),
  );
}

expedite_at-IsOrdered :
    (t i : ℕ) (q : PriorityQueue)
    → q.heap.index t ≡ some i
    → IsOrdered q
    → IsOrdered (expedite_at t i q)
unfolding expedite_at
expedite_at-IsOrdered t i q e v = record {
  heap =
      heap_sift_up-IsHeap _ i i q.heap (omega arith)
        (promoted-UpInv q.tasks t i q.heap e v.indexed v.heap);
  indexed = heap_sift_up-IsIndexed _ i i q.heap (v.indexed.held t i e).0 v.indexed;
}

expedite_locked-IsOrdered :
    (t : ℕ) (q : PriorityQueue) → IsOrdered q → IsOrdered (expedite_locked t q).1
unfolding expedite_locked
expedite_locked-IsOrdered t q v = elim (Option-cases (q.heap.index t)) [
  | inl e ↦ rw (e, expedite_locked) v
  | inr (i, e) ↦
      rw (e, expedite_locked)
        (if_elim (λ (r : Bool × PriorityQueue). IsOrdered r.1) (q.tasks t).expedited (λ _. v)
          (λ _. expedite_at-IsOrdered t i q e v))
]

List-cases : (xs : List ℕ) → (xs ≡ []) ⊎ ((x : ℕ) × (rest : List ℕ) × (xs ≡ x ∷ rest))
List-cases [] = inl refl
List-cases (x ∷ rest) = inr (x, rest, refl)

expedite_loop-IsOrdered :
    (fuel now promoted : ℕ) (q : PriorityQueue)
    → IsOrdered q
    → IsOrdered (expedite_loop fuel now promoted q).1
unfolding expedite_loop
expedite_loop-IsOrdered zero now promoted q v = v
expedite_loop-IsOrdered (suc fuel) now promoted q v = elim (List-cases q.deadlines.slots) [
  | inl e ↦ rw (e, expedite_loop) v
  | inr (t, rest, e) ↦
      let p : PriorityQueue = record q { deadlines = remove_at (due_of q.tasks) 0 q.deadlines } in
      let kept = expedite_locked-IsOrdered t p (record { heap = v.heap; indexed = v.indexed }) in
      rw (e, expedite_loop)
        (if_elim (λ (r : ℕ × PriorityQueue). IsOrdered r.1) (leb (due_of q.tasks t) now)
          (λ _. expedite_loop-IsOrdered fuel now _ (expedite_locked t p).1 kept) (λ _. v))
]

pub expedite_expired-IsOrdered :
    (now : ℕ) (q : PriorityQueue) → IsOrdered q → IsOrdered (expedite_expired now q).1
unfolding expedite_expired
expedite_expired-IsOrdered now q v = expedite_loop-IsOrdered _ now 0 q v

-- A promotion moves the tasks of the heap, and takes none out.
expedite_locked-length :
    (t : ℕ) (q : PriorityQueue)
    → IsOrdered q
    → length (expedite_locked t q).1.heap.slots ≡ length q.heap.slots
unfolding expedite_locked expedite_at
expedite_locked-length t q v = elim (Option-cases (q.heap.index t)) [
  | inl e ↦ rw (e, expedite_locked) refl
  | inr (i, e) ↦
      rw (e, expedite_locked)
        (if_elim (λ (r : Bool × PriorityQueue). length r.1.heap.slots ≡ length q.heap.slots)
          (q.tasks t).expedited (λ _. refl)
          (λ _. (heap_sift_up-Same _ i i q.heap (v.indexed.held t i e).0).0))
]

expedite_loop-length :
    (fuel now promoted : ℕ) (q : PriorityQueue)
    → IsOrdered q
    → length (expedite_loop fuel now promoted q).1.heap.slots ≡ length q.heap.slots
unfolding expedite_loop
expedite_loop-length zero now promoted q v = refl
expedite_loop-length (suc fuel) now promoted q v = elim (List-cases q.deadlines.slots) [
  | inl e ↦ rw (e, expedite_loop) refl
  | inr (t, rest, e) ↦
      let p : PriorityQueue = record q { deadlines = remove_at (due_of q.tasks) 0 q.deadlines } in
      let w : IsOrdered p = record { heap = v.heap; indexed = v.indexed } in
      rw (e, expedite_loop)
        (if_elim (λ (r : ℕ × PriorityQueue). length r.1.heap.slots ≡ length q.heap.slots)
          (leb (due_of q.tasks t) now)
          (λ _.
            expedite_loop-length fuel now _ (expedite_locked t p).1
              (expedite_locked-IsOrdered t p w)
            ∙ expedite_locked-length t p w)
          (λ _. refl))
]

expedite_expired-length :
    (now : ℕ) (q : PriorityQueue)
    → IsOrdered q
    → length (expedite_expired now q).1.heap.slots ≡ length q.heap.slots
unfolding expedite_expired
expedite_expired-length now q v = expedite_loop-length _ now 0 q v

pub expedite-IsOrdered :
    (now t : ℕ) (q : PriorityQueue) → IsOrdered q → IsOrdered (expedite now t q).1
unfolding expedite
expedite-IsOrdered now t q v = expedite_locked-IsOrdered t _ (expedite_expired-IsOrdered now q v)

pub take_first-IsOrdered :
    (now : ℕ) (q : PriorityQueue)
    → IsOrdered q
    → 0 < length q.heap.slots
    → IsOrdered (take_first now q).1
unfolding take_first
take_first-IsOrdered now q v k =
    let p = (expedite_expired now q).1 in
    let w = expedite_expired-IsOrdered now q v in
    record {
      heap = (heap_pop-first p.tasks p.heap 0 w.heap (rw (expedite_expired-length now q v) k)).1;
      indexed = heap_pop-IsIndexed p.tasks p.heap w.indexed;
    }
