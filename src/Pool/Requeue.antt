-- ===== src/Pool/Requeue.antt =====
-- runtime/pool/taskpool.hpp: a task that is moved to the front of the linked queue.
use cppservicelib.Prelude.{
  ℕ, ◌≡◌, ◌≢◌, sym, subst, true, List, [], ◌∷◌, ◌++◌, Option, none, some, All, arith,
}
use cppservicelib.Pool.TaskPool.{PoolTask, Queue, update, set_next, set_prev, set_next?, set_prev?}
use cppservicelib.Pool.Links.{
  first, final, Linked, Fresh, Distinct, SameLinks, Linked-end, Linked-start, Linked-join,
  Linked-split, some_eq,
}
use cppservicelib.Pool.Fifo.{All-append, All-both}

pub All-split {ℓ} : (P : ℕ → Type ℓ) (xs ys : List ℕ) → All P (xs ++ ys) → All P xs × All P ys
All-split P [] ys h = (tt, h)
All-split P (x ∷ xs) ys h = let (k, l) = All-split P xs ys h.1 in ((h.0, k), l)

-- The tasks of a list with one of them in the middle are distinct.
pub record Parts (xs : List ℕ) (t : ℕ) (ys : List ℕ) : Type 0 where
  pub before : Fresh t xs
  pub behind : Fresh t ys
  pub left : Distinct xs
  pub right : Distinct ys
  pub across : All (λ x. Fresh x ys) xs

pub Distinct-Parts : (xs : List ℕ) (t : ℕ) (ys : List ℕ) → Distinct (xs ++ t ∷ ys) → Parts xs t ys
Distinct-Parts [] t ys d = record { before = tt; behind = d.0; left = tt; right = d.1; across = tt }
Distinct-Parts (x ∷ xs) t ys d =
    let p = Distinct-Parts xs t ys d.1 in
    let (fx, fy) = All-split (λ y. x ≢ y) xs (t ∷ ys) d.0 in
    record {
      before = ((λ e. fy.0 (sym e)), p.before);
      behind = p.behind;
      left = (fx, p.left);
      right = p.right;
      across = (fy.1, p.across);
    }

pub Distinct-join :
    (xs ys : List ℕ) → Distinct xs → Distinct ys → All (λ x. Fresh x ys) xs → Distinct (xs ++ ys)
Distinct-join [] ys d e a = e
Distinct-join (x ∷ xs) ys d e a =
    (All-append (λ y. x ≢ y) xs ys d.0 a.0, Distinct-join xs ys d.1 e a.1)

-- The tasks after the links of `requeueToFrontLocked`, with the last task before the moved one, the
-- first one behind it, and the head.
abbrev pub moved : ℕ → Option ℕ → Option ℕ → ℕ → (ℕ → PoolTask) → ℕ → PoolTask
moved t before behind h tasks =
    let unlinked = set_next? before behind (set_prev? behind before tasks) in
    set_prev h (some t) (update unlinked t (record (unlinked t) { next = some h; prev = none }))

All-final {ℓ} :
    (P : ℕ → Type ℓ) (p : Option ℕ) (x : ℕ) (xs : List ℕ) (l : ℕ)
    → All P (x ∷ xs)
    → final p (x ∷ xs) ≡ some l
    → P l
All-final P p x [] l h e = subst P (some_eq e) h.0
All-final P p x (y ∷ ys) l h e = All-final P (some x) y ys l h.1 e

-- Only the link of `task->prev` to what stands behind.
abbrev cut : ℕ → Option ℕ → (ℕ → PoolTask) → ℕ → PoolTask
cut l n tasks = set_next l n tasks

module _ (t l h : ℕ) (tasks : ℕ → PoolTask) where
  moved_self :
      (n : Option ℕ)
      → t ≢ h
      → ((moved t (some l) n h tasks t).prev ≡ none)
        × ((moved t (some l) n h tasks t).next ≡ some h)
  moved_self none k = ground arith
  moved_self (some r) k = ground arith

  moved_head :
      (n : Option ℕ)
      → t ≢ h
      → ((moved t (some l) n h tasks h).prev ≡ some t)
        × ((moved t (some l) n h tasks h).next ≡ (cut l n tasks h).next)
  moved_head none k = ground arith
  moved_head (some r) k = ground arith

  moved_alone :
      (y : ℕ) → t ≢ y → h ≢ y → SameLinks (cut l none tasks) (moved t (some l) none h tasks) y
  moved_alone y j k = ground arith

  moved_before :
      (r y : ℕ)
      → t ≢ y
      → h ≢ y
      → r ≢ y
      → SameLinks (cut l (some r) tasks) (moved t (some l) (some r) h tasks) y
  moved_before r y i j k = ground arith

  moved_first :
      (r : ℕ)
      → t ≢ r
      → l ≢ r
      → h ≢ r
      → ((moved t (some l) (some r) h tasks r).prev ≡ some l)
        × ((moved t (some l) (some r) h tasks r).next ≡ (tasks r).next)
  moved_first r i j k = ground arith

  moved_behind :
      (r y : ℕ)
      → t ≢ y
      → l ≢ y
      → h ≢ y
      → r ≢ y
      → SameLinks tasks (moved t (some l) (some r) h tasks) y
  moved_behind r y i j k m = ground arith

  pub moved_marked :
      (n : Option ℕ) (y : ℕ)
      → (tasks y).in_queue ≡ true
      → (moved t (some l) n h tasks y).in_queue ≡ true
  moved_marked none y k = ground arith
  moved_marked (some r) y k = ground arith

cut_prev :
    (l : ℕ) (n : Option ℕ) (tasks : ℕ → PoolTask) (y : ℕ) → (cut l n tasks y).prev ≡ (tasks y).prev
cut_prev l n tasks y = ground arith

cut_next :
    (l : ℕ) (n : Option ℕ) (tasks : ℕ → PoolTask) (y : ℕ)
    → y ≢ l
    → (cut l n tasks y).next ≡ (tasks y).next
cut_next l n tasks y k = ground arith

cut_last : (l : ℕ) (n : Option ℕ) (tasks : ℕ → PoolTask) → (cut l n tasks l).next ≡ n
cut_last l n tasks = ground arith

pub All-of {ℓ} : (P : ℕ → Type ℓ) (xs : List ℕ) → ((x : ℕ) → P x) → All P xs
All-of P [] f = tt
All-of P (x ∷ xs) f = (f x, All-of P xs f)

-- The chain of the moved task, what stood before it and what stood behind it.
pub moved-Linked :
    (t h : ℕ) (ps post : List ℕ) (l : ℕ) (tasks : ℕ → PoolTask)
    → final none (h ∷ ps) ≡ some l
    → Parts (h ∷ ps) t post
    → Linked tasks none (some t) (h ∷ ps)
    → Linked tasks (some t) none post
    → Linked (moved t (some l) (first none post) h tasks) none none (t ∷ h ∷ ps ++ post)
moved-Linked t h ps post l tasks last p front back =
    let n = first none post in
    let after = moved t (some l) n h tasks in
    (
      (moved_self t l h tasks n p.before.0).0,
      (moved_self t l h tasks n p.before.0).1,
      Linked-join after (some t) none (h ∷ ps) post
          (Linked-start (cut l n tasks) after none (some t) n h ps
            (moved_head t l h tasks n p.before.0).0 (moved_head t l h tasks n p.before.0).1
            (kept post p)
            (Linked-end tasks (cut l n tasks) none (some t) n h ps l last p.left
              (All-of _ (h ∷ ps) (cut_prev l n tasks)) (All-of _ (h ∷ ps) (cut_next l n tasks))
              (cut_last l n tasks) front))
          (behind post p back),
    )
  where
    kept :
        (ys : List ℕ)
        → Parts (h ∷ ps) t ys
        → All
            (SameLinks (cut l (first none ys) tasks) (moved t (some l) (first none ys) h tasks))
            ps
    kept [] p =
        All-both (λ x. t ≢ x) (λ x. h ≢ x) _ ps (moved_alone t l h tasks) p.before.1 p.left.0
    kept (r ∷ rs) p =
        All-both (λ x. (t ≢ x) × (h ≢ x)) (λ x. Fresh x (r ∷ rs)) _ ps
          (λ x f a. moved_before t l h tasks r x f.0 f.1 (λ e. a.0 (sym e)))
          (All-both (λ x. t ≢ x) (λ x. h ≢ x) (λ x. (t ≢ x) × (h ≢ x)) ps (λ x j k. (j, k))
            p.before.1 p.left.0)
          p.across.1

    behind :
        (ys : List ℕ)
        → Parts (h ∷ ps) t ys
        → Linked tasks (some t) none ys
        → Linked (moved t (some l) (first none ys) h tasks) (final (some h) ps) none ys
    behind [] p back = tt
    behind (r ∷ rs) p back =
        let fresh : Fresh l (r ∷ rs) =
          All-final (λ x. Fresh x (r ∷ rs)) none h ps l p.across last in
        let first_of = moved_first t l h tasks r p.behind.0 fresh.0 p.across.0.0 in
        rw last (
          Linked-start tasks (moved t (some l) (some r) h tasks) (some t) (some l) none r rs
            first_of.0 first_of.1
            (All-both (λ x. (t ≢ x) × (l ≢ x)) (λ x. (h ≢ x) × (r ≢ x)) _ rs
              (λ x f g. moved_behind t l h tasks r x f.0 f.1 g.0 g.1)
              (All-both (λ x. t ≢ x) (λ x. l ≢ x) (λ x. (t ≢ x) × (l ≢ x)) rs (λ x j k. (j, k))
                p.behind.1 fresh.1)
              (All-both (λ x. h ≢ x) (λ x. r ≢ x) (λ x. (h ≢ x) × (r ≢ x)) rs (λ x j k. (j, k))
                p.across.0.1 p.right.0))
            back)

-- What a task of the queue has on both sides.
pub around :
    (h : ℕ) (ps : List ℕ) (t : ℕ) (post : List ℕ) (q : Queue)
    → Linked q.tasks none none (h ∷ ps ++ t ∷ post)
    → ((q.tasks t).prev ≡ final none (h ∷ ps)) × ((q.tasks t).next ≡ first none post)
around h ps t post q k =
    let (front, back) = Linked-split q.tasks none none (h ∷ ps) (t ∷ post) k in (back.0, back.1)
