-- ===== src/Pool/DelayPool/Invariant.antt =====
-- runtime/pool/delaypool.hpp: each accepted task is in one place, and what the sections do keeps it so.
use cppservicelib.Prelude.{
  ℕ, ◌+◌, ◌<◌, ◌≡◌, Bool, true, false, not, ◌||◌, Option, none, some, inl, inr, ltb, if◌then◌else◌,
  if_elim, length, Bool-cases, arith,
}
use cppservicelib.Pool.PriorityHeap.Contents.{times, one}
use cppservicelib.Pool.DelayPool.{
  DelayPool, no_task, with_task, insert_timer, extract_timer, ensure_storage, start,
  publish_cancellation, Events, admit_now, admit_later, request_cancel,
}
use cppservicelib.Pool.DelayPool.Scheduler.{expedite}
use cppservicelib.Pool.DelayPool.Timers.{
  ids, times-insert_timer, length-insert_timer, times-extract_timer, length-extract_timer, IsSorted,
  insert_timer-IsSorted, extract_timer-IsSorted,
}

abbrev pub held : Option ℕ → ℕ → ℕ
held none t = 0
held (some u) t = one u t

abbrev pub held_count : Option ℕ → ℕ
held_count none = 0
held_count (some u) = 1

abbrev pub bit : Bool → ℕ
bit true = 1
bit false = 0

-- How often a task is waiting, under way or done.
abbrev pub places : ℕ → DelayPool → ℕ
places t p =
    times t (ids p.timers)
    + held p.ready t
    + times t p.dispatched
    + times t p.running
    + times t p.finished

pub record IsValid (p : DelayPool) : Type 0 where
  -- an accepted task is in one place
  pub placed : (t : ℕ) → places t p ≡ bit (ltb t p.made)
  -- `queued` tells that it is in the timer queue
  pub queued : (t : ℕ) → times t (ids p.timers) ≡ bit (p.tasks t).queued
  -- a claimed task is one whose callback has begun
  pub claimed : (t : ℕ) → times t p.log ≡ bit (p.tasks t).claimed
  pub logged : (t : ℕ) → times t p.log ≡ times t p.running + times t p.finished
  pub counted :
      p.pending ≡ length p.timers + held_count p.ready + length p.dispatched + length p.running
  pub sorted : IsSorted p.timers

-- The same but for fields that the invariant does not name.
pub record Same (p q : DelayPool) : Type 0 where
  pub timers : q.timers ≡ p.timers
  pub ready : q.ready ≡ p.ready
  pub dispatched : q.dispatched ≡ p.dispatched
  pub running : q.running ≡ p.running
  pub finished : q.finished ≡ p.finished
  pub log : q.log ≡ p.log
  pub made : q.made ≡ p.made
  pub pending : q.pending ≡ p.pending
  pub queued : (t : ℕ) → (q.tasks t).queued ≡ (p.tasks t).queued
  pub claimed : (t : ℕ) → (q.tasks t).claimed ≡ (p.tasks t).claimed

pub Same-IsValid : {p q : DelayPool} → Same p q → IsValid p → IsValid q
Same-IsValid {p} {q} s v = record {
  placed = λ t. rw (s.timers, s.ready, s.dispatched, s.running, s.finished, s.made) (v.placed t);
  queued = λ t. rw (s.timers, s.queued t) (v.queued t);
  claimed = λ t. rw (s.log, s.claimed t) (v.claimed t);
  logged = λ t. rw (s.log, s.running, s.finished) (v.logged t);
  counted = rw (s.timers, s.ready, s.dispatched, s.running, s.pending) v.counted;
  sorted = rw s.timers v.sorted;
}

pub ensure_storage-Same : (b : Bool) (p : DelayPool) → Same p (ensure_storage b p).1
unfolding ensure_storage
ensure_storage-Same b p = ground arith

pub start-Same : (b : Bool) (p : DelayPool) → Same p (start b p).1
unfolding start ensure_storage
start-Same b p = ground arith

publish-Same : (t : ℕ) (p : DelayPool) → Same p (publish_cancellation t p)
unfolding publish_cancellation
publish-Same t p = record {
  timers = ground arith;
  ready = ground arith;
  dispatched = ground arith;
  running = ground arith;
  finished = ground arith;
  log = ground arith;
  made = ground arith;
  pending = ground arith;
  queued = λ u. ground arith;
  claimed = λ u. ground arith;
}

pub request_cancel-Same : (t : ℕ) (p : DelayPool) → Same p (request_cancel t p)
unfolding request_cancel publish_cancellation
request_cancel-Same t p = record {
  timers = ground arith;
  ready = ground arith;
  dispatched = ground arith;
  running = ground arith;
  finished = ground arith;
  log = ground arith;
  made = ground arith;
  pending = ground arith;
  queued = λ u. ground arith;
  claimed = λ u. ground arith;
}

module _ (p : DelayPool) (v : IsValid p) where
  -- A number that no task has yet stands nowhere.
  absent : (places p.made p ≡ 0) × ((p.tasks p.made).claimed ≡ false)
  absent = (
    ground (arith, v.placed p.made),
    ground (arith, v.placed p.made, v.claimed p.made, v.logged p.made),
  )

  pub admit_now-IsValid : (wins : Bool) (e : Events) → IsValid (admit_now wins e p).1
  unfolding admit_now
  admit_now-IsValid wins e = elim (Bool-cases (not e.task_spawned)) [
    | inl f ↦ rw f v
    | inr f ↦ rw f (record {
      placed = λ t. ground (arith, v.placed t);
      queued = λ t. ground (arith, v.queued t, absent);
      claimed = λ t. ground (arith, v.claimed t, absent);
      logged = v.logged;
      counted = omega (arith, v.counted);
      sorted = v.sorted;
    })
  ]

  queue-IsValid :
      (key : ℕ) (requested wins : Bool)
      → IsValid (record p {
        pending = p.pending + 1;
        made = p.made + 1;
        tasks =
            with_task p.made
              (record no_task {
                cancel_requested = requested;
                queued = true;
                admitted = true;
                deadline_wins = wins;
              })
              p.tasks;
        timers = insert_timer key p.made p.timers;
      })
  queue-IsValid key requested wins = record {
    placed = λ t. ground (arith, v.placed t, times-insert_timer t key p.made p.timers);
    queued = λ t. ground (arith, v.queued t, absent, times-insert_timer t key p.made p.timers);
    claimed = λ t. ground (arith, v.claimed t, absent);
    logged = v.logged;
    counted = omega (arith, v.counted, length-insert_timer key p.made p.timers);
    sorted = insert_timer-IsSorted key p.made p.timers v.sorted;
  }

  pub admit_later-IsValid : (at : ℕ) (wins : Bool) (e : Events) → IsValid (admit_later at wins e p)
  unfolding admit_later
  admit_later-IsValid at wins e =
      let inner =
        queue-IsValid (if e.cancelled_early then 0 else at)
          (e.cancelled_early || e.cancelled_meanwhile) wins in
      if_elim IsValid (e.cancelled_early || e.cancelled_meanwhile)
        (λ _. Same-IsValid (publish-Same p.made _) inner) (λ _. inner)

  pub expedite-IsValid : (t : ℕ) → IsValid (expedite t p)
  unfolding expedite
  expedite-IsValid t =
      if_elim IsValid (p.tasks t).queued
        (λ e.
          let inside : 0 < times t (ids p.timers) = ground (arith, v.queued t) in
          record {
            placed = λ u. ground (
              arith,
              v.placed u,
              times-insert_timer u 0 t (extract_timer t p.timers),
              times-extract_timer u t p.timers inside,
            );
            queued = λ u. omega (
              arith,
              v.queued u,
              times-insert_timer u 0 t (extract_timer t p.timers),
              times-extract_timer u t p.timers inside,
            );
            claimed = v.claimed;
            logged = v.logged;
            counted = omega (
              arith,
              v.counted,
              length-insert_timer 0 t (extract_timer t p.timers),
              length-extract_timer t p.timers inside,
            );
            sorted =
                insert_timer-IsSorted 0 t (extract_timer t p.timers)
                  (extract_timer-IsSorted t p.timers v.sorted);
          })
        (λ _. v)
