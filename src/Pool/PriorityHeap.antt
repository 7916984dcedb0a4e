-- ===== src/Pool/PriorityHeap.antt =====
-- runtime/pool/prioritytaskpool.hpp: the min-heap of priorities. A task is a number; `index` holds
-- `priorityIndex` of every task, `none` for `kNotInHeap`.
pub mod Contents
pub mod Order
pub mod Up
pub mod Down
pub mod Index
use cppservicelib.Prelude.{
  ℕ, zero, suc, ◌+◌, ◌-◌, ◌*◌, ◌/◌, Bool, true, false, not, ◌&&◌, ◌||◌, List, [], ◌∷◌, ◌++◌, Option,
  none, some, ltb, leb, ◌==◌, if◌then◌else◌, length, get_or, set,
}
use cppservicelib.Pool.DeadlineHeap.{Heap, slot, put_index, drop_last, empty_heap}

-- `priority` counts from the least `int`, which is 0 here.
pub record PriorityTask : Type 0 where
  pub priority : ℕ
  pub sequence : ℕ
  pub deadline : Option ℕ
  pub expedited : Bool

-- `comesBefore`
unfoldable pub comes_before : PriorityTask → PriorityTask → Bool
comes_before l r =
    if not (l.priority == r.priority) then ltb l.priority r.priority else ltb l.sequence r.sequence

-- `heapSwap`
unfoldable pub heap_swap : ℕ → ℕ → Heap → Heap
heap_swap i j h =
    let a = slot h i in
    let b = slot h j in
    record {
      slots = set (set h.slots i b) j a;
      index = put_index a (some j) (put_index b (some i) h.index);
    }

-- `heap_.back()`, of a heap with a task.
abbrev pub back : List ℕ → ℕ
back [] = 0
back (x ∷ []) = x
back (x ∷ y ∷ xs) = back (y ∷ xs)

module _ (tasks : ℕ → PriorityTask) where
  abbrev pub before : ℕ → ℕ → Bool
  before t u = comes_before (tasks t) (tasks u)

  -- `heapSiftUp`: the index falls in each round, so `fuel` of the index is enough.
  unfoldable pub heap_sift_up : ℕ → ℕ → Heap → Heap
  heap_sift_up zero i h = h
  heap_sift_up (suc fuel) i h =
      let parent = (i - 1) / 2 in
      let rest = heap_sift_up fuel parent (heap_swap parent i h) in
      if i == 0 then h else if not (before (slot h i) (slot h parent)) then h else rest

  abbrev pub best_child : ℕ → Heap → ℕ
  best_child i h =
      let left = 2 * i + 1 in
      let right = left + 1 in
      if ltb right (length h.slots) && before (slot h right) (slot h left) then right else left

  -- `heapSiftDown`: the index grows in each round, so `fuel` of the size is enough.
  unfoldable pub heap_sift_down : ℕ → ℕ → Heap → Heap
  heap_sift_down zero i h = h
  heap_sift_down (suc fuel) i h =
      let best = best_child i h in
      let rest = heap_sift_down fuel best (heap_swap i best h) in
      if not (ltb i (length h.slots / 2))
      then h
      else if not (before (slot h best) (slot h i))
      then h
      else rest

  -- `heapPush`
  unfoldable pub heap_push : ℕ → Heap → Heap
  heap_push t h =
      let i = length h.slots in
      heap_sift_up i i (record { slots = h.slots ++ t ∷ []; index = put_index t (some i) h.index })

  -- `heapPop`, of a heap with a task.
  unfoldable pub heap_pop : Heap → ℕ × Heap
  heap_pop h =
      let top = slot h 0 in
      let last = back h.slots in
      let rest = drop_last h.slots in
      let index = put_index top none h.index in
      (
        top,
        elim rest [
          | [] ↦ record { slots = []; index = index }
          | r ∷ rs ↦
              heap_sift_down (length (r ∷ rs)) 0
                (record { slots = set (r ∷ rs) 0 last; index = put_index last (some 0) index })
        ],
      )
