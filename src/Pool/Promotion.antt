-- ===== src/Pool/Promotion.antt =====
-- runtime/pool/taskpool.hpp: the promotion of a waiting task to the front of the queue, by its
-- deadline or its cancellation.
use cppservicelib.Prelude.{
  ℕ, ◌≡◌, ◌≢◌, refl, sym, ap, subst, ◌∙◌, Bool, true, false, List, [], ◌∷◌, ◌++◌, Option, none,
  some, ◌==◌, if◌then◌else◌, length, length-append, ==_refl, not, ◌||◌, arith, Bool-cases, inl, inr,
}
use cppservicelib.Pool.TaskPool.{Queue, relink, relink_front, requeue_to_front, is_task, mark}
use cppservicelib.Pool.Links.{
  first, final, Distinct, SameLinks, Linked-frame, Linked-split, final-append, final-some,
}
use cppservicelib.Pool.Fifo.{Holds, All-append, All-map}
use cppservicelib.Pool.Requeue.{
  All-split, Distinct-Parts, Distinct-join, moved-Linked, moved_marked, All-of, around,
}

relink_front_lem :
    (t : ℕ) (before behind head : Option ℕ) (q : Queue)
    → q.head ≡ head
    → (q.tasks t).prev ≡ before
    → (q.tasks t).next ≡ behind
    → relink_front t q ≡ relink t before behind head q
unfolding relink_front
relink_front_lem t before behind head q e f g = rw (e, f, g) refl

relink_tail :
    (t l h : ℕ) (ps post : List ℕ) (q : Queue)
    → final none (h ∷ ps) ≡ some l
    → q.tail ≡ final none (h ∷ ps ++ t ∷ post)
    → (elim (first none post) [ some _ ↦ q.tail | none ↦ some l ]) ≡ final none (t ∷ h ∷ ps ++ post)
relink_tail t l h ps [] q last e = sym (final-append (some h) ps [] ∙ last)
relink_tail t l h ps (r ∷ rs) q last e =
    e ∙ final-append (some h) ps (t ∷ r ∷ rs) ∙ sym (final-append (some h) ps (r ∷ rs))

moved_length :
    (h t : ℕ) (ps post : List ℕ) → length (h ∷ ps ++ t ∷ post) ≡ length (t ∷ h ∷ ps ++ post)
moved_length h t ps post = rw (length-append ps (t ∷ post), length-append ps post) (omega arith)

relink-Holds :
    (t l h : ℕ) (ps post : List ℕ) (q : Queue)
    → final none (h ∷ ps) ≡ some l
    → Holds q (h ∷ ps ++ t ∷ post)
    → Holds (relink t (some l) (first none post) (some h) q) (t ∷ h ∷ ps ++ post)
unfolding relink
relink-Holds t l h ps post q last k =
    let p = Distinct-Parts (h ∷ ps) t post k.distinct in
    let (front, back) = Linked-split q.tasks none none (h ∷ ps) (t ∷ post) k.links in
    let (m_front, m_back) =
      All-split (λ x. (q.tasks x).in_queue ≡ true) (h ∷ ps) (t ∷ post) k.marked in
    record {
      head = refl;
      tail = relink_tail t l h ps post q last k.tail;
      links = moved-Linked t h ps post l q.tasks last p front back.2;
      distinct = (
        All-append (λ y. t ≢ y) (h ∷ ps) post p.before p.behind,
        Distinct-join (h ∷ ps) post p.left p.right p.across,
      );
      marked =
          All-map (λ x. (q.tasks x).in_queue ≡ true) _ (t ∷ h ∷ ps ++ post)
            (moved_marked t l h q.tasks (first none post))
            (m_back.0, All-append _ (h ∷ ps) post m_front m_back.1);
      counted = k.counted ∙ moved_length h t ps post;
    }

mark_links : (t y : ℕ) (q : Queue) → SameLinks q.tasks (mark t q).tasks y
mark_links t y q = ground arith

mark_marked :
    (t y : ℕ) (q : Queue) → (q.tasks y).in_queue ≡ true → ((mark t q).tasks y).in_queue ≡ true
mark_marked t y q h = ground arith

mark-Holds : (t : ℕ) (q : Queue) (xs : List ℕ) → Holds q xs → Holds (mark t q) xs
mark-Holds t q xs k = record {
  head = k.head;
  tail = k.tail;
  links =
      Linked-frame q.tasks (mark t q).tasks none none xs
        (All-of (SameLinks q.tasks (mark t q).tasks) xs (λ y. mark_links t y q)) k.links;
  distinct = k.distinct;
  marked = All-map _ _ xs (λ y. mark_marked t y q) k.marked;
  counted = k.counted;
}

other :
    (h : ℕ) (ps : List ℕ) (t : ℕ) (post : List ℕ) → Distinct (h ∷ ps ++ t ∷ post) → (h == t) ≡ false
other h ps t post d = let k = (All-split (λ y. h ≢ y) ps (t ∷ post) d.0).1.0 in ground arith

choose_yes :
    {b : Bool} (p q : Queue) (xs : List ℕ) → b ≡ true → Holds p xs → Holds (if b then p else q) xs
choose_yes p q xs e k = rw e k

choose_no :
    {b : Bool} (p q : Queue) (xs : List ℕ) → b ≡ false → Holds q xs → Holds (if b then p else q) xs
choose_no p q xs e k = rw e k

requeued :
    (t : ℕ) (pre post : List ℕ) (q : Queue)
    → Holds q (pre ++ t ∷ post)
    → Holds (if is_task q.head t then mark t q else relink_front t (mark t q)) (t ∷ pre ++ post)
requeued t [] post q k =
    choose_yes _ _ (t ∷ post) (ap (λ h. is_task h t) k.head ∙ ==_refl t)
      (mark-Holds t q (t ∷ post) k)
requeued t (h ∷ ps) post q k =
    let m = mark-Holds t q (h ∷ ps ++ t ∷ post) k in
    let (l, last) = final-some h ps in
    let near = around h ps t post (mark t q) m.links in
    let apart : (h == t) ≡ false = other h ps t post k.distinct in
    choose_no _ _ (t ∷ h ∷ ps ++ post) (ap (λ e. is_task e t) k.head ∙ apart) (
      subst (λ r. Holds r (t ∷ h ∷ ps ++ post))
        (sym (
          relink_front_lem t (some l) (first none post) (some h) (mark t q) m.head (near.0 ∙ last)
            near.1))
        (relink-Holds t l h ps post (mark t q) last m))

requeue_first :
    (t : ℕ) (q : Queue)
    → not (q.tasks t).in_queue || (q.tasks t).expedited ≡ false
    → requeue_to_front t q
      ≡ (true, if is_task q.head t then mark t q else relink_front t (mark t q))
unfolding requeue_to_front
requeue_first t q e = rw e refl

waiting :
    (t : ℕ) (q : Queue)
    → (q.tasks t).in_queue ≡ true
    → (q.tasks t).expedited ≡ false
    → not (q.tasks t).in_queue || (q.tasks t).expedited ≡ false
waiting t q e f = ground arith

-- A waiting task that was not promoted before goes to the front, and the others keep their order.
pub requeue_to_front-Holds :
    (t : ℕ) (pre post : List ℕ) (q : Queue)
    → Holds q (pre ++ t ∷ post)
    → (q.tasks t).expedited ≡ false
    → ((requeue_to_front t q).0 ≡ true) × Holds (requeue_to_front t q).1 (t ∷ pre ++ post)
requeue_to_front-Holds t pre post q k e =
    let first_time = requeue_first t q (waiting t q (All-split _ pre (t ∷ post) k.marked).1.0 e) in
    (
      ap (λ r. r.0) first_time,
      subst (λ r. Holds r (t ∷ pre ++ post)) (sym (ap (λ r. r.1) first_time))
          (requeued t pre post q k),
    )

relink_expedited :
    (t : ℕ) (q : Queue) (before behind head : Option ℕ)
    → (q.tasks t).expedited ≡ true
    → ((relink t before behind head q).tasks t).expedited ≡ true
unfolding relink
relink_expedited t q none none none e = ground arith
relink_expedited t q none none (some h) e = ground arith
relink_expedited t q none (some r) none e = ground arith
relink_expedited t q none (some r) (some h) e = ground arith
relink_expedited t q (some l) none none e = ground arith
relink_expedited t q (some l) none (some h) e = ground arith
relink_expedited t q (some l) (some r) none e = ground arith
relink_expedited t q (some l) (some r) (some h) e = ground arith

requeue_again :
    (t : ℕ) (q : Queue)
    → not (q.tasks t).in_queue || (q.tasks t).expedited ≡ true
    → requeue_to_front t q ≡ (false, q)
unfolding requeue_to_front
requeue_again t q e = rw e refl

mark_expedited : (t : ℕ) (q : Queue) → ((mark t q).tasks t).expedited ≡ true
mark_expedited t q = ground arith

relink_front_expedited :
    (t : ℕ) (q : Queue)
    → (q.tasks t).expedited ≡ true
    → ((relink_front t q).tasks t).expedited ≡ true
unfolding relink_front
relink_front_expedited t q e = relink_expedited t q (q.tasks t).prev (q.tasks t).next q.head e

requeued_expedited :
    (t : ℕ) (q : Queue) (b : Bool)
    → ((if b then mark t q else relink_front t (mark t q)).tasks t).expedited ≡ true
requeued_expedited t q true = mark_expedited t q
requeued_expedited t q false = relink_front_expedited t (mark t q) (mark_expedited t q)

promoted_before :
    (t : ℕ) (q : Queue) → (q.tasks t).expedited ≡ true → requeue_to_front t q ≡ (false, q)
promoted_before t q e = requeue_again t q (ground arith)

-- Of the triggers that promote a task, only the first one counts: a second promotion answers
-- `false` and changes nothing, whatever the queue was.
pub requeue_once :
    (t : ℕ) (q : Queue) → let r = (requeue_to_front t q).1 in requeue_to_front t r ≡ (false, r)
requeue_once t q = elim (Bool-cases (not (q.tasks t).in_queue || (q.tasks t).expedited)) [
  | inl e ↦
      let same = ap (λ r. r.1) (requeue_again t q e) in
      subst (λ r. requeue_to_front t r ≡ (false, r)) (sym same) (requeue_again t q e)
  | inr e ↦
      let same = ap (λ r. r.1) (requeue_first t q e) in
      subst (λ r. requeue_to_front t r ≡ (false, r)) (sym same)
        (promoted_before t _ (requeued_expedited t q (is_task q.head t)))
]
