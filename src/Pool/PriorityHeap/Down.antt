-- ===== src/Pool/PriorityHeap/Down.antt =====
-- runtime/pool/prioritytaskpool.hpp: the way down, and the pop.
use cppservicelib.Prelude.{
  ℕ, zero, suc, ◌+◌, ◌*◌, ◌/◌, ◌≡◌, ◌≢◌, ◌<◌, false, true, not, List, [], ◌∷◌, Option, none, some,
  ltb, if_elim, length, arith, ◌⊎◌,
}
use cppservicelib.Pool.DeadlineHeap.{Heap, slot, put_index, drop_last}
use cppservicelib.Pool.PriorityHeap.{
  PriorityTask, back, heap_swap, before, best_child, heap_sift_down, heap_pop,
}
use cppservicelib.Pool.PriorityHeap.Contents.{length-drop_last, heap_pop-times}
use cppservicelib.Pool.PriorityHeap.Order.{
  late_trans, late_flip, late_refl, parent_of, slot-swap, length-swap, get_or-popped, Late, IsHeap,
  root_first,
}

module _ (tasks : ℕ → PriorityTask) where
  record DownInv (h : Heap) (i : ℕ) : Type 0 where
    edges : (c : ℕ) → 0 < c → c < length h.slots → parent_of c ≢ i → Late tasks h (parent_of c) c
    bridged :
        (c : ℕ)
        → 0 < c
        → c < length h.slots
        → parent_of c ≡ i
        → 0 < i
        → Late tasks h (parent_of i) c

  record IsBest (h : Heap) (i m : ℕ) : Type 0 where
    inside : m < length h.slots
    child : (m ≡ 2 * i + 1) ⊎ (m ≡ 2 * i + 2)
    first : (c : ℕ) → 0 < c → c < length h.slots → parent_of c ≡ i → Late tasks h m c

  best_child-IsBest :
      (i : ℕ) (h : Heap) → i < length h.slots / 2 → IsBest h i (best_child tasks i h)
  best_child-IsBest i h k =
      let left : 2 * i + 1 < length h.slots = omega arith in
      record {
        inside = ground arith;
        child = ground arith;
        first = λ c p q r. ground (
          arith,
          late_refl (tasks (slot h (2 * i + 1))),
          late_refl (tasks (slot h (2 * i + 2))),
          late_flip (tasks (slot h (2 * i + 2))) (tasks (slot h (2 * i + 1))),
        );
      }

  swap-DownInv :
      (h : Heap) (i m : ℕ)
      → DownInv h i
      → IsBest h i m
      → before tasks (slot h m) (slot h i) ≡ true
      → DownInv (heap_swap i m h) m
  swap-DownInv h i m v b below =
      let inside : i < length h.slots = omega (arith, b.inside, b.child) in
      let at = slot-swap i m h inside b.inside in
      let size = length-swap i m h in
      record {
        edges = λ c p q r. ground (
          arith,
          at c,
          at (parent_of c),
          v.edges c,
          v.bridged m,
          b.child,
          b.first c,
          late_flip (tasks (slot h m)) (tasks (slot h i)),
        );
        bridged = λ c p q r t. ground (arith, at c, at (parent_of m), v.edges c, b.child);
      }

  heap_sift_down-IsHeap :
      (fuel i : ℕ) (h : Heap)
      → length h.slots < fuel + i + 1
      → DownInv h i
      → IsHeap tasks (heap_sift_down tasks fuel i h)
  unfolding heap_sift_down
  heap_sift_down-IsHeap zero i h f v = λ c p q. v.edges c p q (omega arith)
  heap_sift_down-IsHeap (suc fuel) i h f v =
      let m = best_child tasks i h in
      if_elim (IsHeap tasks) (not (ltb i (length h.slots / 2)))
        (λ leaf. λ c p q. v.edges c p q (ground arith))
        (λ inner.
          let b = best_child-IsBest i h (ground arith) in
          if_elim (IsHeap tasks) (not (before tasks (slot h m) (slot h i)))
            (λ settled. λ c p q. ground (
              arith,
              v.edges c,
              b.first c,
              late_trans (tasks (slot h i)) (tasks (slot h m)) (tasks (slot h c)),
            ))
            (λ below.
              heap_sift_down-IsHeap fuel m (heap_swap i m h)
                (omega (arith, length-swap i m h, b.child))
                (swap-DownInv h i m v b (ground arith))))

  pop_slots-IsHeap :
      (xs : List ℕ) (index : ℕ → Option ℕ)
      → let h : Heap = record { slots = xs; index = index } in
        IsHeap tasks h → IsHeap tasks (heap_pop tasks h).1
  unfolding heap_pop
  pop_slots-IsHeap [] index o = λ c p q. absurd (omega arith)
  pop_slots-IsHeap (x ∷ []) index o = λ c p q. absurd (omega arith)
  pop_slots-IsHeap (x ∷ y ∷ ys) index o =
      let last = back (y ∷ ys) in
      heap_sift_down-IsHeap (suc (length (drop_last (y ∷ ys)))) 0
        (record {
          slots = last ∷ drop_last (y ∷ ys);
          index = put_index last (some 0) (put_index x none index);
        })
        (omega arith)
        (record {
          edges = λ c p q r.
              rw
                (
                  get_or-popped x y last ys c p q,
                  get_or-popped x y last ys (parent_of c) (omega arith) (omega arith),
                )
                (o c p (omega (arith, length-drop_last y ys)));
          bridged = λ c p q r u. absurd (omega arith);
        })

  -- The task that a pop of an ordered heap returns: no task of the heap comes before it, and the rest
  -- is an ordered heap.
  pub heap_pop-first :
      (h : Heap) (i : ℕ)
      → IsHeap tasks h
      → i < length h.slots
      → (before tasks (slot h i) (heap_pop tasks h).0 ≡ false) × IsHeap tasks (heap_pop tasks h).1
  heap_pop-first h i o k = (
    rw ((heap_pop-times tasks 0 h (omega arith)).0) (root_first tasks h i o k),
    pop_slots-IsHeap h.slots h.index o,
  )
