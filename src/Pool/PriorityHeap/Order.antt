-- ===== src/Pool/PriorityHeap/Order.antt =====
-- runtime/pool/prioritytaskpool.hpp: the heap order of the priorities.
use cppservicelib.Prelude.{
  ℕ, zero, suc, ◌-◌, ◌/◌, ◌≡◌, ◌<◌, refl, ◌∙◌, false, true, List, [], ◌∷◌, ◌==◌, if◌then◌else◌,
  length, get_or, set, length-set, arith, get_or-set,
}
use cppservicelib.Pool.DeadlineHeap.{Heap, slot, drop_last}
use cppservicelib.Pool.PriorityHeap.{PriorityTask, comes_before, heap_swap, before}
use cppservicelib.Pool.PriorityHeap.Contents.{length-drop_last}

pub late_trans :
    (a b c : PriorityTask)
    → comes_before b a ≡ false
    → comes_before c b ≡ false
    → comes_before c a ≡ false
unfolding comes_before
late_trans a b c h k = ground arith

pub late_flip : (a b : PriorityTask) → comes_before a b ≡ true → comes_before b a ≡ false
unfolding comes_before
late_flip a b h = ground arith

pub late_refl : (a : PriorityTask) → comes_before a a ≡ false
unfolding comes_before
late_refl a = ground arith

abbrev pub parent_of : ℕ → ℕ
parent_of i = (i - 1) / 2

pub slot-swap :
    (i j : ℕ) (h : Heap)
    → i < length h.slots
    → j < length h.slots
    → (c : ℕ)
    → slot (heap_swap i j h) c
      ≡ (if c == j then slot h i else if c == i then slot h j else slot h c)
unfolding heap_swap
slot-swap i j h k l c =
    rw
      (
        get_or-set (set h.slots i (slot h j)) j c (slot h i) 0
            (rw (length-set h.slots i (slot h j)) l),
        get_or-set h.slots i c (slot h j) 0 k,
      )
      (ground arith)

pub length-swap : (i j : ℕ) (h : Heap) → length (heap_swap i j h).slots ≡ length h.slots
unfolding heap_swap
length-swap i j h =
    length-set (set h.slots i (slot h j)) j (slot h i) ∙ length-set h.slots i (slot h j)

pub get_or-drop_last :
    (x : ℕ) (xs : List ℕ) (i : ℕ)
    → i < length xs
    → get_or (drop_last (x ∷ xs)) i 0 ≡ get_or (x ∷ xs) i 0
get_or-drop_last x [] i k = absurd (omega arith)
get_or-drop_last x (y ∷ ys) zero k = refl
get_or-drop_last x (y ∷ ys) (suc i) k = get_or-drop_last y ys i (omega arith)

-- Past the root, the slots are those of before the pop.
pub get_or-popped :
    (x y v : ℕ) (ys : List ℕ) (c : ℕ)
    → 0 < c
    → c < length (v ∷ drop_last (y ∷ ys))
    → get_or (v ∷ drop_last (y ∷ ys)) c 0 ≡ get_or (x ∷ y ∷ ys) c 0
get_or-popped x y v ys zero p q = absurd (omega arith)
get_or-popped x y v ys (suc c) p q = get_or-drop_last y ys c (omega (arith, length-drop_last y ys))

module _ (tasks : ℕ → PriorityTask) where
  -- The task in slot `i` need not wait for the one in slot `j`.
  abbrev pub Late : Heap → ℕ → ℕ → Type 0
  Late h i j = before tasks (slot h j) (slot h i) ≡ false

  -- No task comes before the one at its parent slot.
  abbrev pub IsHeap : Heap → Type 0
  IsHeap h =
      (c : ℕ) → 0 < c → c < length h.slots → before tasks (slot h c) (slot h ((c - 1) / 2)) ≡ false

  root_first_below : (k : ℕ) (h : Heap) (i : ℕ) → IsHeap h → i < k → i < length h.slots → Late h 0 i
  root_first_below zero h i o f p = absurd (omega arith)
  root_first_below (suc k) h i o f p = ground (
    arith,
    o i,
    root_first_below k h (parent_of i) o,
    late_refl (tasks (slot h 0)),
    late_trans (tasks (slot h 0)) (tasks (slot h (parent_of i))) (tasks (slot h i)),
  )

  pub root_first : (h : Heap) (i : ℕ) → IsHeap h → i < length h.slots → Late h 0 i
  root_first h i o p = root_first_below (suc i) h i o (omega arith) p
