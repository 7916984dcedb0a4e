-- ===== src/Tests/Runtime.antt =====
-- A graph that is drained, and a drain that is not woken.
use cppservicelib.Prelude.{◌≡◌, refl, true, false, List, [], ◌∷◌}
use cppservicelib.Service.Runtime.{
  new_runtime, initialised, topology_throws, count, begin_input, finish_input, notify,
  begin_parallel, retire, start_runtime, begin_drain, test_drain, fall_asleep, Section,
  begins_input, finishes_input, notifies, begins_parallel, retires, starts, drains, tests_drain,
  falls_asleep, sections, section,
}
use cppservicelib.Service.Runtime.Quiet.{drained_runtime_is_quiet}

abbrev woken_in_time : List Section
woken_in_time =
    starts initialised
    ∷ begins_input
    ∷ begins_parallel
    ∷ drains
    ∷ tests_drain false
    ∷ falls_asleep
    ∷ retires
    ∷ tests_drain false
    ∷ falls_asleep
    ∷ finishes_input
    ∷ notifies
    ∷ tests_drain false
    ∷ []

drained_runtime_is_quiet_example :
    let r = sections woken_in_time new_runtime in
    (r.invocations ≡ 0)
    × (r.parallel_active ≡ 0)
    × ((begin_input r).0 ≡ false)
    × ((begin_parallel r).0 ≡ false)
unfolding sections section start_runtime begin_drain test_drain fall_asleep finish_input notify
    retire
drained_runtime_is_quiet_example = drained_runtime_is_quiet woken_in_time refl

-- The last invocation ends between the test of the drain and its wait.
abbrev not_woken : List Section
not_woken =
    starts initialised
    ∷ begins_input
    ∷ drains
    ∷ tests_drain false
    ∷ finishes_input
    ∷ notifies
    ∷ falls_asleep
    ∷ []

sleeps_on :
    let r = sections not_woken new_runtime in
    (r.sleeps ≡ true) × (r.notices ≡ 0) × (count r.inputs ≡ 0) × (r.parallel_active ≡ 0)
unfolding sections section start_runtime begin_input begin_drain test_drain fall_asleep finish_input
    notify
sleeps_on = (refl, refl, refl, refl)

-- A task is taken on by a graph whose topology was refused.
accepted_without_graph :
    (begin_parallel (sections (starts topology_throws ∷ []) new_runtime)).0 ≡ true
unfolding sections section start_runtime begin_parallel
accepted_without_graph = refl
