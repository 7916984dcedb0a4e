-- ===== src/Pool/PriorityHeap/Index.antt =====
-- runtime/pool/prioritytaskpool.hpp: `priorityIndex`, the slot of a task in the heap.
use cppservicelib.Prelude.{
  ℕ, zero, suc, ◌+◌, ◌-◌, ◌/◌, ◌≡◌, ◌<◌, refl, not, List, [], ◌∷◌, ◌++◌, Option, none, some, ltb,
  ◌==◌, if_elim, length, get_or, length-append, arith, get_or-append_left, get_or-append_last,
}
use cppservicelib.Pool.DeadlineHeap.{Heap, slot, put_index, drop_last}
use cppservicelib.Pool.PriorityHeap.{
  PriorityTask, back, heap_swap, before, heap_sift_up, best_child, heap_sift_down, heap_push,
  heap_pop,
}
use cppservicelib.Pool.PriorityHeap.Contents.{length-drop_last, best_child-lt}
use cppservicelib.Pool.PriorityHeap.Order.{slot-swap, length-swap, get_or-popped}

-- The index of a task is its slot, and a task without a slot has none.
pub record IsIndexed (h : Heap) : Type 0 where
  pub at : (i : ℕ) → i < length h.slots → h.index (slot h i) ≡ some i
  pub held : (t i : ℕ) → h.index t ≡ some i → (i < length h.slots) × (slot h i ≡ t)

index-swap :
    (i j : ℕ) (h : Heap) (t : ℕ)
    → (heap_swap i j h).index t
      ≡ put_index (slot h i) (some j) (put_index (slot h j) (some i) h.index) t
unfolding heap_swap
index-swap i j h t = refl

heap_swap-IsIndexed :
    (i j : ℕ) (h : Heap)
    → i < length h.slots
    → j < length h.slots
    → IsIndexed h
    → IsIndexed (heap_swap i j h)
heap_swap-IsIndexed i j h k l v =
    let slots = slot-swap i j h k l in
    let size = length-swap i j h in
    record {
      at = λ c p.
          ground
            (arith, slots c, index-swap i j h (slot (heap_swap i j h) c), v.at c, v.at i, v.at j);
      held = λ t c e. ground (arith, slots c, index-swap i j h t, v.at i, v.at j, v.held t c);
    }

-- The last slot is the one that a pop empties.
get_or-back : (x : ℕ) (xs : List ℕ) → get_or (x ∷ xs) (length xs) 0 ≡ back (x ∷ xs)
get_or-back x [] = refl
get_or-back x (y ∷ ys) = get_or-back y ys

module _ (tasks : ℕ → PriorityTask) where
  pub heap_sift_up-IsIndexed :
      (fuel i : ℕ) (h : Heap)
      → i < length h.slots
      → IsIndexed h
      → IsIndexed (heap_sift_up tasks fuel i h)
  unfolding heap_sift_up
  heap_sift_up-IsIndexed zero i h k v = v
  heap_sift_up-IsIndexed (suc fuel) i h k v =
      let parent = (i - 1) / 2 in
      let low : parent < length h.slots = omega arith in
      if_elim IsIndexed (i == 0) (λ _. v)
        (λ _.
          if_elim IsIndexed (not (before tasks (slot h i) (slot h parent))) (λ _. v)
            (λ _.
              heap_sift_up-IsIndexed fuel parent (heap_swap parent i h)
                (rw (length-swap parent i h) low) (heap_swap-IsIndexed parent i h low k v)))

  heap_sift_down-IsIndexed :
      (fuel i : ℕ) (h : Heap) → IsIndexed h → IsIndexed (heap_sift_down tasks fuel i h)
  unfolding heap_sift_down
  heap_sift_down-IsIndexed zero i h v = v
  heap_sift_down-IsIndexed (suc fuel) i h v =
      let best = best_child tasks i h in
      if_elim IsIndexed (not (ltb i (length h.slots / 2))) (λ _. v)
        (λ inner.
          let k : i < length h.slots / 2 = ground arith in
          if_elim IsIndexed (not (before tasks (slot h best) (slot h i))) (λ _. v)
            (λ _.
              heap_sift_down-IsIndexed fuel best (heap_swap i best h)
                (heap_swap-IsIndexed i best h (omega arith) (best_child-lt tasks i h k) v)))

  -- A push of a task without a slot keeps the index.
  pub heap_push-IsIndexed :
      (t : ℕ) (h : Heap) → h.index t ≡ none → IsIndexed h → IsIndexed (heap_push tasks t h)
  unfolding heap_push
  heap_push-IsIndexed t h e v =
      let n = length h.slots in
      let size : length (h.slots ++ t ∷ []) ≡ n + 1 =
        omega (arith, length-append h.slots (t ∷ [])) in
      let end = get_or-append_last h.slots t 0 in
      let old = λ (c : ℕ). get_or-append_left h.slots (t ∷ []) c 0 in
      heap_sift_up-IsIndexed n n _ (omega (arith, size)) (record {
        at = λ c p. ground (arith, size, end, old c, v.at c);
        held = λ u c p. ground (arith, size, end, old c, v.held u c);
      })

  pop_slots-IsIndexed :
      (xs : List ℕ) (index : ℕ → Option ℕ)
      → let h : Heap = record { slots = xs; index = index } in
        IsIndexed h → IsIndexed (heap_pop tasks h).1
  unfolding heap_pop
  pop_slots-IsIndexed [] index v = record {
    at = λ c p. absurd (omega arith);
    held = λ u c e. ground (arith, v.held u c);
  }
  pop_slots-IsIndexed (x ∷ []) index v = record {
    at = λ c p. absurd (omega arith);
    held = λ u c e. ground (arith, v.held u c, v.at 0);
  }
  pop_slots-IsIndexed (x ∷ y ∷ ys) index v =
      let last = back (y ∷ ys) in
      let size = length-drop_last y ys in
      let end = get_or-back x (y ∷ ys) in
      let n = suc (length ys) in
      heap_sift_down-IsIndexed (suc (length (drop_last (y ∷ ys)))) 0
        (record {
          slots = last ∷ drop_last (y ∷ ys);
          index = put_index last (some 0) (put_index x none index);
        })
        (record {
          at =
              λ c p. ground (arith, size, end, get_or-popped x y last ys c, v.at c, v.at 0, v.at n);
          held = λ u c e.
              ground (arith, size, end, get_or-popped x y last ys c, v.held u c, v.at 0, v.at n);
        })

  -- A pop keeps the index.
  pub heap_pop-IsIndexed : (h : Heap) → IsIndexed h → IsIndexed (heap_pop tasks h).1
  heap_pop-IsIndexed h v = pop_slots-IsIndexed h.slots h.index v
