-- ===== src/Tests/DelayPool.antt =====
-- The delay pool at small inputs.
use cppservicelib.Prelude.{
  ◌≡◌, ◌≤◌, ◌+◌, refl, true, false, List, [], ◌∷◌, none, some, pos, ltb, length,
}
use cppservicelib.Pool.PriorityHeap.Contents.{times}
use cppservicelib.Pool.DelayPool.{
  DelayPool, stopped, new_pool, Request, Events, run_at, add_delay, is_rejected, insert_timer,
  extract_timer, delay, is_closed, admit, admit_later, ensure_storage, start, request_cancel,
  publish_cancellation,
}
use cppservicelib.Pool.DelayPool.Scheduler.{
  pick, take_inbox, drain_one, expedite, dispatch_ready, execute, retire, begin_stop,
  stop_scheduler, scheduler_exit, finish_stop,
}
use cppservicelib.Pool.DelayPool.Invariant.{bit, IsValid, held_count}
use cppservicelib.Pool.DelayPool.Runs.{
  Section, starts, delays, cancels, takes_inbox, drains_one, picks, dispatches, scheduler_exits,
  executes, retires, begins_stop, stops_scheduler, finishes_stop, section, sections,
  sections-IsValid, new-IsValid, runs_once, pending_counts, stop_drains,
}

abbrev quiet : Events
quiet = record {
  scheduler_spawned = true;
  task_spawned = true;
  cancelled_early = false;
  cancelled_meanwhile = false;
}

abbrev in_ten : Request
in_ten = record { is_cancelled = false; deadline = none; now = 20; delay = pos 10 }

abbrev in_five : Request
in_five = record { is_cancelled = false; deadline = some 90; now = 20; delay = pos 5 }

abbrev waiting_two : List Section
waiting_two = starts true ∷ delays in_ten quiet ∷ delays in_five quiet ∷ []

-- The task that waits for the later time is cancelled, and runs first; the other one waits for its time.
abbrev whole_run : List Section
whole_run =
    starts true
    ∷ delays in_ten quiet
    ∷ delays in_five quiet
    ∷ cancels 0
    ∷ takes_inbox
    ∷ drains_one
    ∷ picks 21
    ∷ dispatches true 21
    ∷ picks 22
    ∷ executes 0
    ∷ begins_stop false
    ∷ retires 0
    ∷ stops_scheduler
    ∷ picks 25
    ∷ dispatches false 26
    ∷ picks 27
    ∷ dispatches true 27
    ∷ executes 1
    ∷ executes 1
    ∷ retires 1
    ∷ stops_scheduler
    ∷ finishes_stop
    ∷ scheduler_exits
    ∷ finishes_stop
    ∷ []

order_of_runs : (sections whole_run new_pool).log ≡ 1 ∷ 0 ∷ []
unfolding sections section start ensure_storage delay is_rejected is_closed run_at add_delay admit
    admit_later insert_timer request_cancel publish_cancellation take_inbox drain_one expedite
    extract_timer pick dispatch_ready execute retire begin_stop stop_scheduler scheduler_exit
    finish_stop
order_of_runs = refl

is_stopped : (sections whole_run new_pool).state ≡ stopped
unfolding sections section start ensure_storage delay is_rejected is_closed run_at add_delay admit
    admit_later insert_timer request_cancel publish_cancellation take_inbox drain_one expedite
    extract_timer pick dispatch_ready execute retire begin_stop stop_scheduler scheduler_exit
    finish_stop
is_stopped = refl

runs_once_example :
    times 0 (sections whole_run new_pool).log ≤ bit (ltb 0 (sections whole_run new_pool).made)
runs_once_example = runs_once whole_run 0

pending_counts_example :
    (sections waiting_two new_pool).pending
    ≡ length (sections waiting_two new_pool).timers
      + held_count (sections waiting_two new_pool).ready
      + length (sections waiting_two new_pool).dispatched
      + length (sections waiting_two new_pool).running
pending_counts_example = pending_counts waiting_two

stop_drains_example :
    (times 1 (sections whole_run new_pool).log ≡ bit (ltb 1 (sections whole_run new_pool).made))
    × ((sections whole_run new_pool).pending ≡ 0)
stop_drains_example = stop_drains whole_run 1 is_stopped

abbrev two_waiting : DelayPool
two_waiting = sections waiting_two new_pool

two_waiting_free : two_waiting.ready ≡ none
unfolding sections section start ensure_storage delay is_rejected is_closed run_at add_delay admit
    admit_later insert_timer
two_waiting_free = refl

two_waiting_picked : (pick 25 two_waiting).ready ≡ some 1
unfolding sections section start ensure_storage delay is_rejected is_closed run_at add_delay admit
    admit_later insert_timer pick
two_waiting_picked = refl

two_waiting-IsValid : IsValid two_waiting
two_waiting-IsValid = sections-IsValid waiting_two new_pool new-IsValid
