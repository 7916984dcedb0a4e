-- ===== src/Pool/PriorityHeap/Up.antt =====
-- runtime/pool/prioritytaskpool.hpp: the way up, and the push.
use cppservicelib.Prelude.{
  ℕ, zero, suc, ◌+◌, ◌≡◌, ◌≢◌, ◌<◌, true, not, [], ◌∷◌, ◌++◌, Option, some, ◌==◌, if_elim, length,
  length-append, arith, get_or-append_left,
}
use cppservicelib.Pool.DeadlineHeap.{Heap, slot, put_index}
use cppservicelib.Pool.PriorityHeap.{PriorityTask, heap_swap, before, heap_sift_up, heap_push}
use cppservicelib.Pool.PriorityHeap.Order.{
  late_trans, late_flip, parent_of, slot-swap, length-swap, Late, IsHeap,
}

module _ (tasks : ℕ → PriorityTask) where
  pub record UpInv (h : Heap) (i : ℕ) : Type 0 where
    pub inside : i < length h.slots
    pub edges : (c : ℕ) → 0 < c → c < length h.slots → c ≢ i → Late tasks h (parent_of c) c
    pub bridged :
        (c : ℕ)
        → 0 < c
        → c < length h.slots
        → parent_of c ≡ i
        → 0 < i
        → Late tasks h (parent_of i) c

  swap-UpInv :
      (h : Heap) (i : ℕ)
      → UpInv h i
      → 0 < i
      → before tasks (slot h i) (slot h (parent_of i)) ≡ true
      → UpInv (heap_swap (parent_of i) i h) (parent_of i)
  swap-UpInv h i v pos below =
      let low : parent_of i < length h.slots = omega (arith, v.inside) in
      let at = slot-swap (parent_of i) i h low v.inside in
      let size = length-swap (parent_of i) i h in
      record {
        inside = rw size low;
        edges = λ c p q r. ground (
          arith,
          at c,
          at (parent_of c),
          v.edges c,
          v.edges i,
          v.bridged c,
          late_flip (tasks (slot h i)) (tasks (slot h (parent_of i))),
          late_trans (tasks (slot h i)) (tasks (slot h (parent_of i))) (tasks (slot h c)),
        );
        bridged = λ c p q r t. ground (
          arith,
          at c,
          at (parent_of (parent_of i)),
          v.edges c,
          v.edges (parent_of i),
          late_trans (tasks (slot h (parent_of (parent_of i)))) (tasks (slot h (parent_of i)))
              (tasks (slot h c)),
        );
      }

  pub heap_sift_up-IsHeap :
      (fuel i : ℕ) (h : Heap)
      → i < fuel + 1
      → UpInv h i
      → IsHeap tasks (heap_sift_up tasks fuel i h)
  unfolding heap_sift_up
  heap_sift_up-IsHeap zero i h f v = λ c p q. v.edges c p q (omega arith)
  heap_sift_up-IsHeap (suc fuel) i h f v =
      if_elim (IsHeap tasks) (i == 0) (λ root. λ c p q. v.edges c p q (ground arith))
        (λ pos.
          if_elim (IsHeap tasks) (not (before tasks (slot h i) (slot h (parent_of i))))
            (λ settled. λ c p q. ground (arith, v.edges c))
            (λ below.
              heap_sift_up-IsHeap fuel (parent_of i) (heap_swap (parent_of i) i h) (ground arith)
                (swap-UpInv h i v (ground arith) (ground arith))))

  push-UpInv :
      (t : ℕ) (h : Heap) (index : ℕ → Option ℕ)
      → IsHeap tasks h
      → UpInv (record { slots = h.slots ++ t ∷ []; index = index }) (length h.slots)
  push-UpInv t h index o =
      let size : length (h.slots ++ t ∷ []) ≡ length h.slots + 1 =
        omega (arith, length-append h.slots (t ∷ [])) in
      record {
        inside = omega (arith, size);
        edges = λ c p q r.
            let k : c < length h.slots = omega (arith, size) in
            rw
              (
                get_or-append_left h.slots (t ∷ []) c 0 k,
                get_or-append_left h.slots (t ∷ []) (parent_of c) 0 (omega arith),
              )
              (o c p k);
        bridged = λ c p q r u. absurd (omega (arith, size));
      }

  -- A push keeps the order of the heap.
  pub heap_push-IsHeap : (t : ℕ) (h : Heap) → IsHeap tasks h → IsHeap tasks (heap_push tasks t h)
  unfolding heap_push
  heap_push-IsHeap t h o =
      heap_sift_up-IsHeap _ _ _ (omega arith)
        (push-UpInv t h (put_index t (some (length h.slots)) h.index) o)
