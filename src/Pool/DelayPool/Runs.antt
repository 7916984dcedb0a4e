-- ===== src/Pool/DelayPool/Runs.antt =====
-- runtime/pool/delaypool.hpp: runs of the delay pool, its sections in any order in which their threads
-- can be there.
use cppservicelib.Prelude.{
  ℕ, ◌+◌, ◌≤◌, ◌≡◌, ◌≢◌, refl, sym, ◌∙◌, Bool, true, false, not, ◌&&◌, List, [], ◌∷◌, Option, none,
  some, inl, inr, leb, ltb, ◌==◌, if◌then◌else◌, if_elim, is_some, length, Bool-cases, Option-cases,
  arith,
}
use cppservicelib.Pool.PriorityHeap.Contents.{times}
use cppservicelib.Pool.DelayPool.{
  DelayState, stopping, stopped, DelayPool, new_pool, ensure_storage, start, Request, run_at,
  is_rejected, Events, admit_now, admit_later, is_closed, admit, delay, publish_cancellation,
  request_cancel,
}
use cppservicelib.Pool.DelayPool.Scheduler.{
  take_inbox, expedite, drain_one, pick, dispatch_ready, execute, retire, begin_stop,
  stop_scheduler, scheduler_exit, finish_stop,
}
use cppservicelib.Pool.DelayPool.Timers.{ids, times-empty}
use cppservicelib.Pool.DelayPool.Invariant.{
  IsValid, Same-IsValid, held, held_count, bit, ensure_storage-Same, start-Same,
  request_cancel-Same, admit_now-IsValid, admit_later-IsValid,
}
use cppservicelib.Pool.DelayPool.Sections.{
  pick-IsValid, dispatch_ready-IsValid, execute-IsValid, retire-IsValid, take_inbox-IsValid,
  drain_one-IsValid, begin_stop-Same, stop_scheduler-Same, scheduler_exit-Same, finish_stop-Same,
}

pub data Section : Type 0 where
  starts : Bool → Section
  delays : Request → Events → Section
  cancels : ℕ → Section
  -- the scheduler
  takes_inbox drains_one : Section
  picks : ℕ → Section
  dispatches : Bool → ℕ → Section
  scheduler_exits : Section
  -- the coroutine of a task
  executes retires : ℕ → Section
  -- a caller of `stop`, from a task of this pool or not, and its owner
  begins_stop : Bool → Section
  stops_scheduler finishes_stop : Section

abbrev is_stopping : DelayState → Bool
is_stopping stopping = true
is_stopping _ = false

abbrev is_idle : DelayPool → Bool
is_idle p = p.scheduler_live && not p.scheduler_stopping && not (is_some p.ready)

unfoldable pub section : Section → DelayPool → DelayPool
section (starts spawned) p = (start spawned p).1
section (delays r e) p = (delay r e p).1
section (cancels t) p = if ltb t p.made then request_cancel t p else p
section takes_inbox p = if is_idle p then take_inbox p else p
section drains_one p = if is_idle p then drain_one p else p
section (picks now) p = if is_some p.ready then p else (if is_idle p then pick now p else p)
section (dispatches spawned now) p = dispatch_ready spawned now p
section scheduler_exits p =
    if p.scheduler_stopping && not (is_some p.ready) then scheduler_exit p else p
section (executes t) p = if ltb 0 (times t p.dispatched) then execute t p else p
section (retires t) p = if ltb 0 (times t p.running) then retire t p else p
section (begins_stop from_own_task) p = (begin_stop from_own_task p).1
section stops_scheduler p = if is_stopping p.state && p.pending == 0 then stop_scheduler p else p
section finishes_stop p =
    if is_stopping p.state && p.pending == 0 && not p.scheduler_live then finish_stop p else p

unfoldable pub sections : List Section → DelayPool → DelayPool
sections [] p = p
sections (x ∷ xs) p = sections xs (section x p)

admit-IsValid :
    (r : Request) (e : Events) (b : Bool) (p : DelayPool) → IsValid p → IsValid (admit r e (b, p)).1
unfolding admit
admit-IsValid r e false p v = v
admit-IsValid r e true p v = elim (Bool-cases (leb (run_at r).0 r.now)) [
  | inl f ↦ rw f (admit_now-IsValid p v (run_at r).1 e)
  | inr f ↦ rw f (admit_later-IsValid p v (run_at r).0 (run_at r).1 e)
]

delay-IsValid : (r : Request) (e : Events) (p : DelayPool) → IsValid p → IsValid (delay r e p).1
unfolding delay
delay-IsValid r e p v = elim (Bool-cases (is_rejected r)) [
  | inl f ↦ rw f v
  | inr f ↦ elim (Option-cases (is_closed p.state)) [
    | inl g ↦
        rw (f, g, delay)
          (admit-IsValid r e (ensure_storage e.scheduler_spawned p).0 _
            (Same-IsValid (ensure_storage-Same e.scheduler_spawned p) v))
    | inr (x, g) ↦ rw (f, g, delay) v
  ]
]

not_some : (p : DelayPool) → is_some p.ready ≡ false → p.ready ≡ none
not_some p e = ground arith

pub section-IsValid : (x : Section) (p : DelayPool) → IsValid p → IsValid (section x p)
unfolding section
section-IsValid (starts spawned) p v = Same-IsValid (start-Same spawned p) v
section-IsValid (delays r e) p v = delay-IsValid r e p v
section-IsValid (cancels t) p v =
    if_elim IsValid (ltb t p.made) (λ _. Same-IsValid (request_cancel-Same t p) v) (λ _. v)
section-IsValid takes_inbox p v = if_elim IsValid (is_idle p) (λ _. take_inbox-IsValid p v) (λ _. v)
section-IsValid drains_one p v = if_elim IsValid (is_idle p) (λ _. drain_one-IsValid p v) (λ _. v)
section-IsValid (picks now) p v =
    if_elim IsValid (is_some p.ready) (λ _. v)
      (λ e. if_elim IsValid (is_idle p) (λ _. pick-IsValid now p (not_some p e) v) (λ _. v))
section-IsValid (dispatches spawned now) p v = dispatch_ready-IsValid spawned now p v
section-IsValid scheduler_exits p v =
    if_elim IsValid (p.scheduler_stopping && not (is_some p.ready))
      (λ _. Same-IsValid (scheduler_exit-Same p) v) (λ _. v)
section-IsValid (executes t) p v =
    if_elim IsValid (ltb 0 (times t p.dispatched)) (λ e. execute-IsValid t p (ground arith) v)
      (λ _. v)
section-IsValid (retires t) p v =
    if_elim IsValid (ltb 0 (times t p.running)) (λ e. retire-IsValid t p (ground arith) v) (λ _. v)
section-IsValid (begins_stop own) p v = Same-IsValid (begin_stop-Same own p) v
section-IsValid stops_scheduler p v =
    if_elim IsValid (is_stopping p.state && p.pending == 0)
      (λ _. Same-IsValid (stop_scheduler-Same p) v) (λ _. v)
section-IsValid finishes_stop p v =
    if_elim IsValid (is_stopping p.state && p.pending == 0 && not p.scheduler_live)
      (λ _. Same-IsValid (finish_stop-Same p) v) (λ _. v)

pub new-IsValid : IsValid new_pool
new-IsValid = record {
  placed = λ t. ground arith;
  queued = λ t. refl;
  claimed = λ t. refl;
  logged = λ t. refl;
  counted = refl;
  sorted = tt;
}

pub sections-IsValid : (xs : List Section) (p : DelayPool) → IsValid p → IsValid (sections xs p)
unfolding sections
sections-IsValid [] p v = v
sections-IsValid (x ∷ xs) p v = sections-IsValid xs (section x p) (section-IsValid x p v)

-- Whatever callers, cancellations, the scheduler, the tasks and stops do to a new delay pool, section by
-- section and in any order: no callback begins twice, and none begins but that of an accepted task.
pub runs_once :
    (xs : List Section) (t : ℕ) → let p = sections xs new_pool in times t p.log ≤ bit (ltb t p.made)
runs_once xs t =
    let p = sections xs new_pool in
    let v = sections-IsValid xs new_pool new-IsValid in omega (arith, v.placed t, v.logged t)

-- In every run of the sections of a delay pool, from a new pool, `pending` is the number of the accepted tasks whose callbacks have not ended, and
-- each of these tasks waits, is under way to its coroutine, or runs.
pub pending_counts :
    (xs : List Section)
    → let p = sections xs new_pool in
      p.pending ≡ length p.timers + held_count p.ready + length p.dispatched + length p.running
pending_counts xs = (sections-IsValid xs new_pool new-IsValid).counted

-- No task is left in a stopped pool.
abbrev Drained : DelayPool → Type 0
Drained p = p.state ≡ stopped → p.pending ≡ 0

publish_pending :
    (t : ℕ) (p : DelayPool)
    → ((publish_cancellation t p).state ≡ p.state)
      × ((publish_cancellation t p).pending ≡ p.pending)
unfolding publish_cancellation
publish_pending t p = ground arith

open_state : (s : DelayState) → is_closed s ≡ none → s ≢ stopped
unfolding is_closed
open_state s e h = ground arith

admit_state :
    (r : Request) (e : Events) (b : Bool) (p : DelayPool) → (admit r e (b, p)).1.state ≡ p.state
unfolding admit admit_now admit_later publish_cancellation
admit_state r e false p = refl
admit_state r e true p = ground arith

ensure_state :
    (b : Bool) (p : DelayPool) → p.state ≢ stopped → (ensure_storage b p).1.state ≢ stopped
unfolding ensure_storage
ensure_state b p h = ground arith

delay-Drained : (r : Request) (e : Events) (p : DelayPool) → Drained p → Drained (delay r e p).1
unfolding delay
delay-Drained r e p d = elim (Bool-cases (is_rejected r)) [
  | inl f ↦ rw f d
  | inr f ↦ elim (Option-cases (is_closed p.state)) [
    | inl g ↦
        rw (f, g, delay)
          (λ h.
            let ensured = ensure_storage e.scheduler_spawned p in
            absurd (
              ensure_state e.scheduler_spawned p (open_state p.state g)
                (sym (admit_state r e ensured.0 ensured.1) ∙ h)))
    | inr (x, g) ↦ rw (f, g, delay) d
  ]
]

section-Drained : (x : Section) (p : DelayPool) → Drained p → Drained (section x p)
unfolding section start ensure_storage request_cancel publish_cancellation take_inbox drain_one
    expedite pick dispatch_ready scheduler_exit execute retire begin_stop stop_scheduler finish_stop
section-Drained (delays r e) p d = delay-Drained r e p d
section-Drained (starts spawned) p d = λ h. ground arith
section-Drained _ p d = λ h. ground arith

sections-Drained : (xs : List Section) (p : DelayPool) → Drained p → Drained (sections xs p)
unfolding sections
sections-Drained [] p d = d
sections-Drained (x ∷ xs) p d = sections-Drained xs (section x p) (section-Drained x p d)

times-ids_empty : (t : ℕ) (es : List (ℕ × ℕ)) → length es ≡ 0 → times t (ids es) ≡ 0
times-ids_empty t [] h = refl
times-ids_empty t (e ∷ es) h = absurd (omega arith)

held_empty : (t : ℕ) (o : Option ℕ) → held_count o ≡ 0 → held o t ≡ 0
held_empty t none h = refl
held_empty t (some u) h = absurd (omega arith)

nothing_left :
    (p : DelayPool) (t : ℕ) → IsValid p → p.pending ≡ 0 → times t p.log ≡ bit (ltb t p.made)
nothing_left p t v e = omega (
  arith,
  v.placed t,
  v.logged t,
  times-ids_empty t p.timers (omega (arith, v.counted)),
  held_empty t p.ready (omega (arith, v.counted)),
  times-empty t p.dispatched (omega (arith, v.counted)),
  times-empty t p.running (omega (arith, v.counted)),
)

-- Where a run of the sections of a delay pool, from a new pool, has reached the state stopped, the
-- callback of each accepted task has begun exactly once, and no task is pending: a stop loses no task.
pub stop_drains :
    (xs : List Section) (t : ℕ)
    → (sections xs new_pool).state ≡ stopped
    → (times t (sections xs new_pool).log ≡ bit (ltb t (sections xs new_pool).made))
      × ((sections xs new_pool).pending ≡ 0)
stop_drains xs t h =
    let p = sections xs new_pool in
    let v = sections-IsValid xs new_pool new-IsValid in
    let drained = sections-Drained xs new_pool (λ e. cc) h in (nothing_left p t v drained, drained)
