-- ===== src/Pool/PriorityHeap/Contents.antt =====
-- runtime/pool/prioritytaskpool.hpp: the order of the tasks, and the tasks that the heap holds.
use cppservicelib.Prelude.{
  ℕ, zero, suc, ◌+◌, ◌-◌, ◌*◌, ◌/◌, ◌≡◌, ◌≢◌, ◌<◌, refl, ap, ◌∙◌, subst, false, not, ◌&&◌, List, [],
  ◌∷◌, ◌++◌, Option, none, some, ltb, ◌==◌, if◌then◌else◌, if_elim, length, get_or, set, length-set,
  length-append, arith,
}
use cppservicelib.Pool.DeadlineHeap.{Heap, slot, put_index, drop_last}
use cppservicelib.Pool.PriorityHeap.{
  PriorityTask, back, comes_before, heap_swap, before, heap_sift_up, best_child, heap_sift_down,
  heap_push, heap_pop,
}

-- Tasks with different sequence numbers are in one order: exactly one of two comes first, and what
-- comes before a task that comes before a third also comes before the third.
pub comes_before_order :
    (a b c : PriorityTask)
    → a.sequence ≢ b.sequence
    → (comes_before a b ≡ not (comes_before b a))
      × ((comes_before a b && comes_before b c && not (comes_before a c)) ≡ false)
unfolding comes_before
comes_before_order a b c h = ground arith

-- How often a task stands in the slots.
abbrev pub times : ℕ → List ℕ → ℕ
times t [] = 0
times t (x ∷ xs) = (if x == t then 1 else 0) + times t xs

abbrev pub one : ℕ → ℕ → ℕ
one x t = if x == t then 1 else 0

times-set :
    (t : ℕ) (xs : List ℕ) (i v : ℕ)
    → i < length xs
    → times t (set xs i v) + one (get_or xs i 0) t ≡ times t xs + one v t
times-set t [] i v h = omega arith
times-set t (x ∷ xs) zero v h = omega arith
times-set t (x ∷ xs) (suc i) v h = omega (arith, times-set t xs i v (omega arith))

get_or-set-both :
    (xs : List ℕ) (i j : ℕ)
    → i < length xs
    → j < length xs
    → get_or (set xs i (get_or xs j 0)) j 0 ≡ get_or xs j 0
get_or-set-both [] i j h k = omega arith
get_or-set-both (x ∷ xs) zero zero h k = refl
get_or-set-both (x ∷ xs) zero (suc j) h k = refl
get_or-set-both (x ∷ xs) (suc i) zero h k = refl
get_or-set-both (x ∷ xs) (suc i) (suc j) h k = get_or-set-both xs i j (omega arith) (omega arith)

pub times-append : (t : ℕ) (xs : List ℕ) (v : ℕ) → times t (xs ++ v ∷ []) ≡ times t xs + one v t
times-append t [] v = omega arith
times-append t (x ∷ xs) v = omega (arith, times-append t xs v)

times-drop_last :
    (t x : ℕ) (xs : List ℕ)
    → times t (drop_last (x ∷ xs)) + one (back (x ∷ xs)) t ≡ times t (x ∷ xs)
times-drop_last t x [] = omega arith
times-drop_last t x (y ∷ ys) = omega (arith, times-drop_last t y ys)

pub length-drop_last : (x : ℕ) (xs : List ℕ) → length (drop_last (x ∷ xs)) ≡ length xs
length-drop_last x [] = refl
length-drop_last x (y ∷ ys) = omega (arith, length-drop_last y ys)

-- The same slots in another order.
abbrev pub Same : List ℕ → List ℕ → Type 0
Same xs ys = (length xs ≡ length ys) × ((t : ℕ) → times t xs ≡ times t ys)

times-swap :
    (t : ℕ) (xs : List ℕ) (i j : ℕ)
    → i < length xs
    → j < length xs
    → times t (set (set xs i (get_or xs j 0)) j (get_or xs i 0)) ≡ times t xs
times-swap t xs i j k l =
    let a = get_or xs i 0 in
    let b = get_or xs j 0 in
    let first = times-set t xs i b k in
    let second : times t (set (set xs i b) j a) + one b t ≡ times t (set xs i b) + one a t =
      subst (λ z. times t (set (set xs i b) j a) + one z t ≡ times t (set xs i b) + one a t)
        (get_or-set-both xs i j k l) (times-set t (set xs i b) j a (rw (length-set xs i b) l)) in
    omega (arith, first, second)

pub heap_swap-Same :
    (i j : ℕ) (h : Heap)
    → i < length h.slots
    → j < length h.slots
    → Same (heap_swap i j h).slots h.slots
unfolding heap_swap
heap_swap-Same i j h k l = (
  length-set (set h.slots i (slot h j)) j (slot h i) ∙ length-set h.slots i (slot h j),
  λ t. times-swap t h.slots i j k l,
)

pub Same-trans : (xs ys zs : List ℕ) → Same xs ys → Same ys zs → Same xs zs
Same-trans xs ys zs a b = (a.0 ∙ b.0, λ t. a.1 t ∙ b.1 t)

module _ (tasks : ℕ → PriorityTask) where
  pub heap_sift_up-Same :
      (fuel i : ℕ) (h : Heap)
      → i < length h.slots
      → Same (heap_sift_up tasks fuel i h).slots h.slots
  unfolding heap_sift_up
  heap_sift_up-Same zero i h k = (refl, λ t. refl)
  heap_sift_up-Same (suc fuel) i h k =
      let parent = (i - 1) / 2 in
      let low : parent < length h.slots = omega arith in
      let swapped = heap_swap-Same parent i h low k in
      let rest =
        Same-trans _ _ _ (heap_sift_up-Same fuel parent (heap_swap parent i h) (rw (swapped.0) low))
          swapped in
      if_elim (λ (g : Heap). Same g.slots h.slots) (i == 0) (λ _. (refl, λ t. refl))
        (λ _.
          if_elim (λ (g : Heap). Same g.slots h.slots)
            (not (before tasks (slot h i) (slot h parent))) (λ _. (refl, λ t. refl)) (λ _. rest))

  pub best_child-lt :
      (i : ℕ) (h : Heap) → i < length h.slots / 2 → best_child tasks i h < length h.slots
  best_child-lt i h k = let left : 2 * i + 1 < length h.slots = omega arith in ground arith

  heap_sift_down-Same : (fuel i : ℕ) (h : Heap) → Same (heap_sift_down tasks fuel i h).slots h.slots
  unfolding heap_sift_down
  heap_sift_down-Same zero i h = (refl, λ t. refl)
  heap_sift_down-Same (suc fuel) i h =
      let best = best_child tasks i h in
      if_elim (λ (g : Heap). Same g.slots h.slots) (not (ltb i (length h.slots / 2)))
        (λ _. (refl, λ t. refl))
        (λ inner.
          let k : i < length h.slots / 2 = ground arith in
          if_elim (λ (g : Heap). Same g.slots h.slots) (not (before tasks (slot h best) (slot h i)))
            (λ _. (refl, λ t. refl))
            (λ _.
              Same-trans _ _ _ (heap_sift_down-Same fuel best (heap_swap i best h))
                (heap_swap-Same i best h (omega arith) (best_child-lt i h k))))

  -- A push adds its task to the heap once, and loses and doubles no other.
  pub heap_push-times :
      (t u : ℕ) (h : Heap) → times u (heap_push tasks t h).slots ≡ times u h.slots + one t u
  unfolding heap_push
  heap_push-times t u h =
      (heap_sift_up-Same (length h.slots) (length h.slots)
          (record {
            slots = h.slots ++ t ∷ [];
            index = put_index t (some (length h.slots)) h.index;
          })
          (rw (length-append h.slots (t ∷ [])) (omega arith))).1
        u
      ∙ times-append u h.slots t

  pop_slots :
      (u : ℕ) (xs : List ℕ) (index : ℕ → Option ℕ)
      → 0 < length xs
      → let h : Heap = record { slots = xs; index = index } in
        ((heap_pop tasks h).0 ≡ get_or xs 0 0)
        × (times u (heap_pop tasks h).1.slots + one (get_or xs 0 0) u ≡ times u xs)
  unfolding heap_pop
  pop_slots u [] index k = omega arith
  pop_slots u (x ∷ []) index k = (refl, omega arith)
  pop_slots u (x ∷ y ∷ ys) index k =
      let last = back (y ∷ ys) in
      let sifted = heap_sift_down-Same (suc (length (drop_last (y ∷ ys)))) 0 (record {
        slots = last ∷ drop_last (y ∷ ys);
        index = put_index last (some 0) (put_index x none index);
      }) in
      let kept : times u (last ∷ drop_last (y ∷ ys)) + one x u ≡ times u (x ∷ y ∷ ys) =
        omega (arith, times-drop_last u y ys) in
      (refl, ap (λ n. n + one x u) (sifted.1 u) ∙ kept)

  -- A pop takes the first slot of a heap with a task out of it, once, and loses and doubles no other
  -- task.
  pub heap_pop-times :
      (u : ℕ) (h : Heap)
      → 0 < length h.slots
      → ((heap_pop tasks h).0 ≡ slot h 0)
        × (times u (heap_pop tasks h).1.slots + one (slot h 0) u ≡ times u h.slots)
  heap_pop-times u h k = pop_slots u h.slots h.index k
