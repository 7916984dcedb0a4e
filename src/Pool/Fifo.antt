-- ===== src/Pool/Fifo.antt =====
-- runtime/pool/taskpool.hpp: the linked queue as a list, the task at the head first.
use cppservicelib.Prelude.{
  ℕ, ◌≡◌, ◌≢◌, refl, sym, ap, ◌∙◌, true, false, List, [], ◌∷◌, ◌++◌, Option, none, some, length,
  length-append, All, arith,
}
use cppservicelib.Pool.TaskPool.{
  PoolTask, Queue, update, set_next, set_prev, set_prev?, append, leave, take_head,
}
use cppservicelib.Pool.Links.{
  first, final, Linked, Fresh, Distinct, SameLinks, All-Fresh, final-Fresh, Linked-end,
  Linked-start, Linked-join, final-append, final-some,
}

-- The queue holds these tasks, in this order.
pub record Holds (q : Queue) (xs : List ℕ) : Type 0 where
  pub head : q.head ≡ first none xs
  pub tail : q.tail ≡ final none xs
  pub links : Linked q.tasks none none xs
  pub distinct : Distinct xs
  pub marked : All (λ x. (q.tasks x).in_queue ≡ true) xs
  pub counted : q.count ≡ length xs

pub All-append {ℓ} : (P : ℕ → Type ℓ) (xs ys : List ℕ) → All P xs → All P ys → All P (xs ++ ys)
All-append P [] ys h k = k
All-append P (x ∷ xs) ys h k = (h.0, All-append P xs ys h.1 k)

Distinct-snoc : (t : ℕ) (xs : List ℕ) → Fresh t xs → Distinct xs → Distinct (xs ++ t ∷ [])
Distinct-snoc t [] f d = (tt, tt)
Distinct-snoc t (x ∷ xs) f d =
    (All-append (λ y. x ≢ y) xs (t ∷ []) d.0 ((λ e. f.0 (sym e)), tt), Distinct-snoc t xs f.1 d.1)

pub All-map {ℓ κ} :
    (P : ℕ → Type ℓ) (Q : ℕ → Type κ) (xs : List ℕ) → ((x : ℕ) → P x → Q x) → All P xs → All Q xs
All-map P Q [] f h = tt
All-map P Q (x ∷ xs) f h = (f x h.0, All-map P Q xs f h.1)

-- The tasks after `tail_->next = task; task->prev = tail_; task->inQueue = true`.
abbrev behind : ℕ → ℕ → (ℕ → PoolTask) → ℕ → PoolTask
behind t l tasks =
    let linked = set_prev t (some l) (set_next l (some t) tasks) in
    update linked t (record (linked t) { in_queue = true })

module _ (t l : ℕ) (tasks : ℕ → PoolTask) (other : t ≢ l) where
  behind_prev : (y : ℕ) → t ≢ y → (behind t l tasks y).prev ≡ (tasks y).prev
  behind_prev y h = ground arith

  behind_next : (y : ℕ) → t ≢ y → y ≢ l → (behind t l tasks y).next ≡ (tasks y).next
  behind_next y h k = ground arith

  behind_last : (behind t l tasks l).next ≡ some t
  behind_last = ground arith

  behind_self : ((behind t l tasks t).prev ≡ some l) × ((behind t l tasks t).next ≡ (tasks t).next)
  behind_self = ground arith

  behind_marked : (y : ℕ) → (tasks y).in_queue ≡ true → (behind t l tasks y).in_queue ≡ true
  behind_marked y h = ground arith

-- A task that is not in the queue and has no links goes behind the others.
pub append-Holds :
    (t : ℕ) (q : Queue) (xs : List ℕ)
    → Holds q xs
    → Fresh t xs
    → (q.tasks t).next ≡ none
    → (q.tasks t).prev ≡ none
    → Holds (append t q) (xs ++ t ∷ [])
unfolding append
append-Holds t q [] h f n p =
    rw (h.tail, append)
      (record {
        head = refl;
        tail = refl;
        links = ground arith;
        distinct = (tt, tt);
        marked = ground arith;
        counted = ground (arith, h.counted);
      })
append-Holds t q (x ∷ xs) h f n p =
    let (l, e) = final-some x xs in
    let other : t ≢ l = final-Fresh t l none x xs f e in
    rw (h.tail ∙ e, append)
      (record {
        head = h.head;
        tail = sym (final-append (some x) xs (t ∷ []));
        links =
            Linked-join (behind t l q.tasks) none none (x ∷ xs) (t ∷ [])
              (Linked-end q.tasks (behind t l q.tasks) none none (some t) x xs l e h.distinct
                (All-Fresh t (x ∷ xs) (behind_prev t l q.tasks other) f)
                (All-Fresh t (x ∷ xs) (behind_next t l q.tasks other) f)
                (behind_last t l q.tasks other) h.links)
              (
                (behind_self t l q.tasks other).0 ∙ sym e,
                (behind_self t l q.tasks other).1 ∙ n,
                tt,
              );
        distinct = Distinct-snoc t (x ∷ xs) f h.distinct;
        marked =
            All-append _ (x ∷ xs) (t ∷ [])
              (All-map _ _ (x ∷ xs) (behind_marked t l q.tasks other) h.marked) (ground arith, tt);
        counted = rw (length-append xs (t ∷ [])) (ground (arith, h.counted));
      })

-- The tasks after the head has left: `head_->prev = nullptr` for the next one, and
-- `task->next.reset(); task->inQueue = false` for itself.
abbrev without : ℕ → Option ℕ → (ℕ → PoolTask) → ℕ → PoolTask
without t rest tasks =
    let behind = set_prev? rest none tasks in
    update behind t (record (behind t) { next = none; in_queue = false })

module _ (t : ℕ) (tasks : ℕ → PoolTask) where
  without_others : (r y : ℕ) → t ≢ y → r ≢ y → SameLinks tasks (without t (some r) tasks) y
  without_others r y h k = ground arith

  without_first :
      (r : ℕ)
      → t ≢ r
      → ((without t (some r) tasks r).prev ≡ none)
        × ((without t (some r) tasks r).next ≡ (tasks r).next)
  without_first r h = ground arith

  without_marked :
      (rest : Option ℕ) (y : ℕ)
      → t ≢ y
      → (tasks y).in_queue ≡ true
      → (without t rest tasks y).in_queue ≡ true
  without_marked none y h k = ground arith
  without_marked (some r) y h k = ground arith

  without_self :
      (rest : Option ℕ)
      → ((without t rest tasks t).in_queue ≡ false) × ((without t rest tasks t).next ≡ none)
  without_self none = ground arith
  without_self (some r) = ground arith

pub All-both {ℓ κ} :
    (P : ℕ → Type ℓ) (Q : ℕ → Type κ) (R : ℕ → Type 0) (xs : List ℕ)
    → ((x : ℕ) → P x → Q x → R x)
    → All P xs
    → All Q xs
    → All R xs
All-both P Q R [] f h k = tt
All-both P Q R (x ∷ xs) f h k = (f x h.0 k.0, All-both P Q R xs f h.1 k.1)

leave-Holds :
    (t : ℕ) (q : Queue) (xs : List ℕ) → Holds q (t ∷ xs) → Holds (leave t (first none xs) q) xs
unfolding leave
leave-Holds t q [] h = record {
  head = refl;
  tail = refl;
  links = tt;
  distinct = tt;
  marked = tt;
  counted = ground (arith, h.counted);
}
leave-Holds t q (y ∷ ys) h =
    let (fresh, later) = h.distinct in
    let (y_fresh, d) = later in
    let after = without t (some y) q.tasks in
    record {
      head = refl;
      tail = h.tail;
      links =
          Linked-start q.tasks after (some t) none none y ys (without_first t q.tasks y fresh.0).0
            (without_first t q.tasks y fresh.0).1
            (All-both (λ x. t ≢ x) (λ x. y ≢ x) (SameLinks q.tasks after) ys
              (without_others t q.tasks y) fresh.1 y_fresh)
            h.links.2;
      distinct = (y_fresh, d);
      marked =
          All-both (λ x. t ≢ x) (λ x. (q.tasks x).in_queue ≡ true) (λ x. (after x).in_queue ≡ true)
            (y ∷ ys) (without_marked t q.tasks (some y)) fresh h.marked.1;
      counted = ground (arith, h.counted);
    }

leave_self : (t : ℕ) (rest : Option ℕ) (q : Queue) → ((leave t rest q).tasks t).in_queue ≡ false
unfolding leave
leave_self t rest q = (without_self t q.tasks rest).0

-- The task at the head leaves the queue, and the others stay in their order.
pub take_head-Holds :
    (t : ℕ) (q : Queue) (xs : List ℕ)
    → Holds q (t ∷ xs)
    → (r : Queue) × (take_head q ≡ some (t, r)) × Holds r xs × ((r.tasks t).in_queue ≡ false)
take_head-Holds t q xs h =
    (leave t (first none xs) q, taken, leave-Holds t q xs h, leave_self t (first none xs) q)
  where
    taken : take_head q ≡ some (t, leave t (first none xs) q)
    taken = unfold take_head in (rw (h.head, take_head) (ap (λ r. some (t, leave t r q)) h.links.1))
