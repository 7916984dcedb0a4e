-- ===== src/Pool/DeadlineHeap.antt =====
-- runtime/pool/taskpool.hpp: the min-heap of deadlines. `index` holds `deadlineIndex` of every task,
-- `none` for `kNotInDeadlineHeap`; `due` is the deadline that each task was given.
-- The same functions stand in runtime/pool/prioritytaskpool.hpp.
pub mod Contents
use cppservicelib.Prelude.{
  ℕ, zero, suc, ◌+◌, ◌-◌, ◌*◌, ◌/◌, Bool, not, ◌&&◌, List, [], ◌∷◌, ◌++◌, Option, none, some, ltb,
  leb, ◌==◌, if◌then◌else◌, length, get_or, set,
}

pub record Heap : Type 0 where
  pub slots : List ℕ
  pub index : ℕ → Option ℕ

abbrev pub empty_heap : Heap
empty_heap = record { slots = []; index = λ t. none }

-- The task in a slot; no function asks beyond the slots.
abbrev pub slot : Heap → ℕ → ℕ
slot h i = get_or h.slots i 0

abbrev pub put_index : ℕ → Option ℕ → (ℕ → Option ℕ) → ℕ → Option ℕ
put_index t i index u = if t == u then i else index u

-- `deadlineHeapSwapLocked`
unfoldable pub swap : ℕ → ℕ → Heap → Heap
swap l r h =
    let a = slot h l in
    let b = slot h r in
    record {
      slots = set (set h.slots l b) r a;
      index = put_index a (some r) (put_index b (some l) h.index);
    }

-- `pop_back`
abbrev pub drop_last : List ℕ → List ℕ
drop_last [] = []
drop_last (x ∷ []) = []
drop_last (x ∷ y ∷ xs) = x ∷ drop_last (y ∷ xs)

module _ (due : ℕ → ℕ) where
  -- `deadlineEarlier`, of two tasks.
  abbrev pub earlier : ℕ → ℕ → Bool
  earlier t u = ltb (due t) (due u)

  -- `deadlineHeapSiftUpLocked`: the index falls in each round, so `fuel` of the index is enough.
  unfoldable pub sift_up : ℕ → ℕ → Heap → Heap
  sift_up zero i h = h
  sift_up (suc fuel) i h =
      let parent = (i - 1) / 2 in
      let rest = sift_up fuel parent (swap i parent h) in
      if i == 0 then h else if not (earlier (slot h i) (slot h parent)) then h else rest

  abbrev pub smallest_child : ℕ → Heap → ℕ
  smallest_child i h =
      let left = i * 2 + 1 in
      if ltb (left + 1) (length h.slots) && earlier (slot h (left + 1)) (slot h left)
      then left + 1
      else left

  -- `deadlineHeapSiftDownLocked`: the index grows in each round, so `fuel` of the size is enough.
  unfoldable pub sift_down : ℕ → ℕ → Heap → Heap
  sift_down zero i h = h
  sift_down (suc fuel) i h =
      let child = smallest_child i h in
      let rest = sift_down fuel child (swap i child h) in
      if leb (length h.slots) (i * 2 + 1)
      then h
      else if not (earlier (slot h child) (slot h i))
      then h
      else rest

  -- `deadlineHeapPushLocked`
  unfoldable pub push : ℕ → Heap → Heap
  push t h =
      let i = length h.slots in
      sift_up i i (record { slots = h.slots ++ t ∷ []; index = put_index t (some i) h.index })

  -- `deadlineHeapRemoveAtLocked`
  unfoldable pub remove_at : ℕ → Heap → Heap
  remove_at i h =
      let removed = slot h i in
      let last = length h.slots - 1 in
      let moved = if i == last then h else swap i last h in
      let g : Heap = record {
        slots = drop_last moved.slots;
        index = put_index removed none moved.index;
      } in
      if leb (length g.slots) i
      then g
      else if not (i == 0) && earlier (slot g i) (slot g ((i - 1) / 2))
      then sift_up i i g
      else sift_down (length g.slots) i g

  -- `deadlineHeapRemoveLocked`
  unfoldable pub remove : ℕ → Heap → Heap
  remove t h = elim (h.index t) [ none ↦ h | some i ↦ remove_at i h ]
