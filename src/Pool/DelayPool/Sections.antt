-- ===== src/Pool/DelayPool/Sections.antt =====
-- runtime/pool/delaypool.hpp: the scheduler and the coroutines of the tasks keep each task in one place.
use cppservicelib.Prelude.{
  ℕ, ◌≤◌, ◌<◌, ◌≡◌, refl, ap, ◌∙◌, Bool, true, false, List, [], ◌∷◌, none, some, inl, inr, leb,
  if◌then◌else◌, if_elim, All, Bool-cases, Option-cases, arith,
}
use cppservicelib.Pool.PriorityHeap.Contents.{times}
use cppservicelib.Pool.DelayPool.{DelayPool, with_task, insert_timer}
use cppservicelib.Pool.DelayPool.Scheduler.{
  take_inbox, drain_one, pick, dispatch_ready, execute, retire, begin_stop, stop_scheduler,
  scheduler_exit, finish_stop,
}
use cppservicelib.Pool.DelayPool.Timers.{
  times-insert_timer, length-insert_timer, times-leave_list, length-leave_list,
  insert_timer-IsSorted,
}
use cppservicelib.Pool.DelayPool.Invariant.{IsValid, Same, Same-IsValid, expedite-IsValid}

abbrev front_gone : ℕ × ℕ → List (ℕ × ℕ) → DelayPool → DelayPool
front_gone e es p = record p {
  timers = es;
  ready = some e.1;
  tasks = with_task e.1 (record (p.tasks e.1) { queued = false }) p.tasks;
}

abbrev picked : ℕ → List (ℕ × ℕ) → DelayPool → DelayPool
picked now [] p = p
picked now (e ∷ es) p = if leb e.0 now then front_gone e es p else p

pick_lem :
    (now : ℕ) (es : List (ℕ × ℕ)) (p : DelayPool) → p.timers ≡ es → pick now p ≡ picked now es p
unfolding pick
pick_lem now [] p e = rw e refl
pick_lem now (x ∷ es) p e = rw e refl

front_gone-IsValid :
    (e : ℕ × ℕ) (es : List (ℕ × ℕ)) (p : DelayPool)
    → p.timers ≡ e ∷ es
    → p.ready ≡ none
    → IsValid p
    → IsValid (front_gone e es p)
front_gone-IsValid e es p same free v = record {
  placed = λ t. ground (arith, rw (same, free) at (v.placed t));
  queued = λ t. ground (arith, rw same at (v.queued t), rw same at (v.queued e.1), v.placed e.1);
  claimed = λ t. ground (arith, v.claimed t);
  logged = v.logged;
  counted = omega (arith, rw (same, free) at v.counted);
  sorted = (rw same at v.sorted).1;
}

pub pick-IsValid : (now : ℕ) (p : DelayPool) → p.ready ≡ none → IsValid p → IsValid (pick now p)
pick-IsValid now p free v = go p.timers refl
  where
    go : (es : List (ℕ × ℕ)) → p.timers ≡ es → IsValid (pick now p)
    go [] e = rw (pick_lem now [] p e) v
    go (x ∷ es) e =
        rw (pick_lem now (x ∷ es) p e)
          (if_elim IsValid (leb x.0 now) (λ _. front_gone-IsValid x es p e free v) (λ _. v))

-- In a valid delay pool whose scheduler holds no extracted task, a task that it extracts was the first
-- timer, its time has come, no other timer has a lesser key, and the others stay in their order.
pub pick_least :
    (now t : ℕ) (p : DelayPool)
    → IsValid p
    → p.ready ≡ none
    → (pick now p).ready ≡ some t
    → (key : ℕ) × (p.timers ≡ (key, t) ∷ (pick now p).timers)
      × (key ≤ now)
      × All (λ f. key ≤ f.0) (pick now p).timers
pick_least now t p v free taken = go p.timers refl
  where
    go :
        (es : List (ℕ × ℕ))
        → p.timers ≡ es
        → (key : ℕ) × (p.timers ≡ (key, t) ∷ (pick now p).timers)
          × (key ≤ now)
          × All (λ f. key ≤ f.0) (pick now p).timers
    go [] e = absurd (cc (ap (λ q. q.ready) (pick_lem now [] p e)))
    go ((k, u) ∷ es) e = elim (Bool-cases (leb k now)) [
      | inl due ↦
          let whole : pick now p ≡ front_gone (k, u) es p =
            pick_lem now ((k, u) ∷ es) p e ∙ rw due refl in
          let same : u ≡ t = cc (ap (λ q. q.ready) whole) in
          let left = ap (λ q. q.timers) whole in
          (k, rw (left, e, same) refl, ground arith, rw left ((rw e at v.sorted).0))
      | inr early ↦
          let whole : pick now p ≡ p = pick_lem now ((k, u) ∷ es) p e ∙ rw early refl in
          absurd (cc (ap (λ q. q.ready) whole))
    ]

dispatched-IsValid :
    (t : ℕ) (p : DelayPool)
    → p.ready ≡ some t
    → IsValid p
    → IsValid (record p { ready = none; dispatched = t ∷ p.dispatched })
dispatched-IsValid t p e v = record {
  placed = λ u. omega (arith, rw e at (v.placed u));
  queued = v.queued;
  claimed = v.claimed;
  logged = v.logged;
  counted = omega (arith, rw e at v.counted);
  sorted = v.sorted;
}

returned-IsValid :
    (t now : ℕ) (p : DelayPool)
    → p.ready ≡ some t
    → IsValid p
    → IsValid (record p {
      ready = none;
      timers = insert_timer now t p.timers;
      tasks = with_task t (record (p.tasks t) { queued = true }) p.tasks;
    })
returned-IsValid t now p e v = record {
  placed = λ u. omega (arith, rw e at (v.placed u), times-insert_timer u now t p.timers);
  queued = λ u. ground (
    arith,
    v.queued u,
    times-insert_timer u now t p.timers,
    rw e at (v.placed u),
    rw e at (v.placed t),
    v.queued t,
  );
  claimed = λ u. ground (arith, v.claimed u);
  logged = v.logged;
  counted = omega (arith, rw e at v.counted, length-insert_timer now t p.timers);
  sorted = insert_timer-IsSorted now t p.timers v.sorted;
}

pub dispatch_ready-IsValid :
    (spawned : Bool) (now : ℕ) (p : DelayPool) → IsValid p → IsValid (dispatch_ready spawned now p)
unfolding dispatch_ready
dispatch_ready-IsValid spawned now p v = elim (Option-cases p.ready) [
  | inl e ↦ rw (e, dispatch_ready) v
  | inr (t, e) ↦ elim (Bool-cases spawned) [
    | inl f ↦ rw (e, f, dispatch_ready) (dispatched-IsValid t p e v)
    | inr f ↦ rw (e, f, dispatch_ready) (returned-IsValid t now p e v)
  ]
]

-- A detached task is not claimed yet.
pub dispatched_unclaimed :
    (t : ℕ) (p : DelayPool) → IsValid p → 0 < times t p.dispatched → (p.tasks t).claimed ≡ false
dispatched_unclaimed t p v h = ground (arith, v.placed t, v.claimed t, v.logged t)

pub execute-IsValid :
    (t : ℕ) (p : DelayPool) → 0 < times t p.dispatched → IsValid p → IsValid (execute t p)
unfolding execute
execute-IsValid t p h v =
    let fresh = dispatched_unclaimed t p v h in
    rw fresh (record {
      placed = λ u. omega (arith, v.placed u, times-leave_list u t p.dispatched h);
      queued = λ u. ground (arith, v.queued u);
      claimed = λ u. ground (arith, v.claimed u, fresh);
      logged = λ u. omega (arith, v.logged u);
      counted = omega (arith, v.counted, length-leave_list t p.dispatched h);
      sorted = v.sorted;
    })

pub retire-IsValid :
    (t : ℕ) (p : DelayPool) → 0 < times t p.running → IsValid p → IsValid (retire t p)
unfolding retire
retire-IsValid t p h v = record {
  placed = λ u. omega (arith, v.placed u, times-leave_list u t p.running h);
  queued = v.queued;
  claimed = v.claimed;
  logged = λ u. omega (arith, v.logged u, times-leave_list u t p.running h);
  counted = omega (arith, v.counted, length-leave_list t p.running h);
  sorted = v.sorted;
}

pub take_inbox-IsValid : (p : DelayPool) → IsValid p → IsValid (take_inbox p)
unfolding take_inbox
take_inbox-IsValid p v = Same-IsValid (ground arith) v

pub drain_one-IsValid : (p : DelayPool) → IsValid p → IsValid (drain_one p)
unfolding drain_one
drain_one-IsValid p v = go p.drained refl
  where
    go : (ts : List ℕ) → p.drained ≡ ts → IsValid (drain_one p)
    go [] e = rw (e, drain_one) v
    go (t ∷ ts) e =
        rw (e, drain_one)
          (expedite-IsValid (record p { drained = ts }) (Same-IsValid (ground arith) v) t)

pub begin_stop-Same : (b : Bool) (p : DelayPool) → Same p (begin_stop b p).1
unfolding begin_stop
begin_stop-Same b p = ground arith

pub stop_scheduler-Same : (p : DelayPool) → Same p (stop_scheduler p)
unfolding stop_scheduler
stop_scheduler-Same p = ground arith

pub scheduler_exit-Same : (p : DelayPool) → Same p (scheduler_exit p)
unfolding scheduler_exit
scheduler_exit-Same p = ground arith

pub finish_stop-Same : (p : DelayPool) → Same p (finish_stop p)
unfolding finish_stop
finish_stop-Same p = ground arith
