-- ===== src/Pool/DeadlineHeap/Contents.antt =====
-- runtime/pool/taskpool.hpp: the tasks that a push puts into the heap of deadlines.
use cppservicelib.Prelude.{
  ℕ, zero, suc, ◌+◌, ◌-◌, ◌/◌, ◌<◌, ◌≡◌, refl, ◌∙◌, not, [], ◌∷◌, ◌++◌, some, ◌==◌, if_elim, length,
  length-append, arith,
}
use cppservicelib.Pool.DeadlineHeap.{Heap, slot, put_index, swap, earlier, sift_up, push}
use cppservicelib.Pool.PriorityHeap.{heap_swap}
use cppservicelib.Pool.PriorityHeap.Contents.{
  times, one, times-append, Same, Same-trans, heap_swap-Same,
}

swap-Same :
    (i j : ℕ) (h : Heap) → i < length h.slots → j < length h.slots → Same (swap i j h).slots h.slots
unfolding swap heap_swap
swap-Same i j h k l = heap_swap-Same i j h k l

module _ (due : ℕ → ℕ) where
  sift_up-Same :
      (fuel i : ℕ) (h : Heap) → i < length h.slots → Same (sift_up due fuel i h).slots h.slots
  unfolding sift_up
  sift_up-Same zero i h k = (refl, λ t. refl)
  sift_up-Same (suc fuel) i h k =
      let parent = (i - 1) / 2 in
      let low : parent < length h.slots = omega arith in
      let swapped = swap-Same i parent h k low in
      if_elim (λ (g : Heap). Same g.slots h.slots) (i == 0) (λ _. (refl, λ t. refl))
        (λ _.
          if_elim (λ (g : Heap). Same g.slots h.slots)
            (not (earlier due (slot h i) (slot h parent))) (λ _. (refl, λ t. refl))
            (λ _.
              Same-trans _ _ _ (sift_up-Same fuel parent (swap i parent h) (rw (swapped.0) low))
                swapped))

  -- A push adds its task to the heap once, and loses and doubles no other.
  pub push-times : (t u : ℕ) (h : Heap) → times u (push due t h).slots ≡ times u h.slots + one t u
  unfolding push
  push-times t u h =
      (sift_up-Same (length h.slots) (length h.slots)
          (record {
            slots = h.slots ++ t ∷ [];
            index = put_index t (some (length h.slots)) h.index;
          })
          (rw (length-append h.slots (t ∷ [])) (omega arith))).1
        u
      ∙ times-append u h.slots t
