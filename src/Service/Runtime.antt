-- ===== src/Service/Runtime.antt =====
-- runtime/environment.hpp: the counts of a StreamExecutionEnvironment that its drain waits for. Each
-- function is one section: a change of `inputInvocations_`, or what a thread does under `parallelMutex_`.
-- `invocations` and `notices` count the invocations that are not finished and the calls of NotifyAll that
-- are to come; `tests`, `decides` and `sleeps` tell where the drain is, and `drained` that its wait
-- has answered yes since the last start. They are
-- no part of the code.
pub mod Quiet
use cppservicelib.Prelude.{
  ℕ, ◌+◌, ◌-◌, ◌/◌, ◌%◌, ◌^◌, Bool, true, false, not, ◌&&◌, ◌||◌, List, [], ◌∷◌, ltb, ◌==◌,
  if◌then◌else◌,
}

pub record Runtime : Type 0 where
  -- `inputInvocations_`, a word of 64 bits
  pub inputs : ℕ
  pub parallel_active : ℕ
  pub parallel_accepting : Bool
  -- `activeRuntime_` is set
  pub active : Bool
  pub invocations : ℕ
  pub notices : ℕ
  pub tests : Bool
  -- it has the mutex, and its test has failed
  pub decides : Bool
  pub sleeps : Bool
  pub drained : Bool

abbrev pub new_runtime : Runtime
new_runtime = record {
  inputs = 0;
  parallel_active = 0;
  parallel_accepting = false;
  active = false;
  invocations = 0;
  notices = 0;
  tests = false;
  decides = false;
  sleeps = false;
  drained = false;
}

-- `state & kInputInvocationClosed`, and `state & kInputInvocationCountMask`
abbrev pub is_closed : ℕ → Bool
is_closed state = state / 2 ^ 63 % 2 == 1

abbrev pub count : ℕ → ℕ
count state = state % 2 ^ 63

-- `beginInputInvocation`: the invocation, where there is one.
unfoldable pub begin_input : Runtime → Bool × Runtime
begin_input r =
    if is_closed r.inputs
    then (false, r)
    else if count r.inputs == 2 ^ 63 - 1
    then (false, r)
    else (true, record r { inputs = r.inputs + 1; invocations = r.invocations + 1 })

-- `finishInputInvocation`, without the mutex
unfoldable pub finish_input : Runtime → Runtime
finish_input r = record r {
  inputs = (r.inputs + 2 ^ 64 - 1) % 2 ^ 64;
  invocations = r.invocations - 1;
  notices = r.notices + (if count r.inputs == 1 then 1 else 0);
}

-- The NotifyAll of `finishInputInvocation`: a drain that sleeps tests again.
unfoldable pub notify : Runtime → Runtime
notify r = record r { notices = r.notices - 1; tests = r.tests || r.sleeps; sleeps = false }

-- `parallel` under the mutex
unfoldable pub begin_parallel : Runtime → Bool × Runtime
begin_parallel r =
    if not r.parallel_accepting
    then (false, r)
    else (true, record r { parallel_active = r.parallel_active + 1 })

-- A task of `parallel` ends, or is not spawned: the last one wakes the drain under the mutex.
unfoldable pub retire : Runtime → Runtime
retire r =
    let left = r.parallel_active - 1 in
    record r {
      parallel_active = left;
      tests = r.tests || (r.sleeps && (left == 0));
      sleeps = r.sleeps && not (left == 0);
    }

-- What happens in `startExecutionRuntime`: building the topology or `runtimeInit` may throw.
pub data Start : Type 0 where
  initialised topology_throws init_throws : Start

abbrev started : Start → Runtime → Bool × Runtime
started initialised r =
    (true, record r { inputs = 0; parallel_accepting = true; active = true; drained = false })
started topology_throws r =
    (false, record r { inputs = 0; parallel_accepting = true; drained = false })
started init_throws r =
    (false, record r { inputs = 0; parallel_accepting = false; drained = false })

-- `startExecutionRuntime`
unfoldable pub start_runtime : Start → Runtime → Bool × Runtime
start_runtime x r =
    if r.active
    then (false, r)
    else if not (r.parallel_active == 0)
    then (false, record r { inputs = 0; drained = false })
    else started x r

-- `drainExecutionRuntime` up to the mutex
unfoldable pub begin_drain : Runtime → Runtime
begin_drain r = if not r.active then r else record r {
  inputs = if is_closed r.inputs then r.inputs else r.inputs + 2 ^ 63;
  tests = true;
}

-- The test of its predicate under the mutex: `expired` tells whether the context has ended.
unfoldable pub test_drain : Bool → Runtime → Runtime
test_drain expired r =
    if (count r.inputs == 0) && (r.parallel_active == 0)
    then record r { tests = false; drained = true; parallel_accepting = false }
    else record r { tests = false; decides = not expired }

-- The wait begins, and gives the mutex back.
unfoldable pub fall_asleep : Runtime → Runtime
fall_asleep r = record r { decides = false; sleeps = true }

-- The context ends.
unfoldable pub time_out : Runtime → Runtime
time_out r = record r { sleeps = false; tests = true }

-- `releaseExecutionRuntime`
unfoldable pub release_runtime : Runtime → Runtime
release_runtime r = record r { active = false }

pub data Section : Type 0 where
  begins_input finishes_input notifies begins_parallel retires : Section
  starts : Start → Section
  drains : Section
  tests_drain : Bool → Section
  falls_asleep times_out releases : Section

abbrev pub is_draining : Runtime → Bool
is_draining r = r.tests || r.decides || r.sleeps

-- A section happens where its thread can be there: inputs begin in an active runtime, as the service
-- starts its sources after it; who takes the mutex waits while the drain decides; start, drain and
-- release exclude each other, and a release follows a drain that answered yes.
unfoldable pub section : Section → Runtime → Runtime
unfolding begin_input finish_input notify begin_parallel retire start_runtime begin_drain test_drain
    fall_asleep time_out release_runtime
section begins_input r = if r.active then (begin_input r).1 else r
section finishes_input r = if ltb 0 r.invocations then finish_input r else r
section notifies r = if ltb 0 r.notices then notify r else r
section begins_parallel r = if r.decides then r else (begin_parallel r).1
section retires r = if r.decides then r else if ltb 0 r.parallel_active then retire r else r
section (starts x) r = if is_draining r then r else (start_runtime x r).1
section drains r = if is_draining r then r else begin_drain r
section (tests_drain expired) r = if r.tests then test_drain expired r else r
section falls_asleep r = if r.decides then fall_asleep r else r
section times_out r = if r.sleeps then time_out r else r
section releases r = if r.drained && not (is_draining r) then release_runtime r else r

unfoldable pub sections : List Section → Runtime → Runtime
unfolding section
sections [] r = r
sections (x ∷ xs) r = sections xs (section x r)
