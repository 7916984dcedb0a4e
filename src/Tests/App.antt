-- ===== src/Tests/App.antt =====
-- A service with one link into a pool.
use cppservicelib.Prelude.{ℕ, ◌≡◌, refl, Bool, true, false, List, [], ◌∷◌, none, some, ◌==◌}
use cppservicelib.Dict.{find, emplace}
use cppservicelib.Stream.Caller.{CallSemantics}
use cppservicelib.Service.Lifecycle as Lifecycle
use cppservicelib.Service.Lifecycle.{Entry, Waited, done, not_created}
use cppservicelib.Service.Lifecycle.Log.{is_active}
use cppservicelib.Service.App.{
  App, Configured, new_app, made, ensure_configured_pools, ensure_task_pool, ensure_links,
  ensure_call_semantics, ensure_priority_task_pool, register_delay_pool, register_task_pool,
  register_priority_task_pool, register, of_lifecycle, start, start_body, stop, get_task_pool,
}
use cppservicelib.Service.App.Release.{
  Call, registers_task_pool, gets_task_pool, starts, stops, call, calls, stopped_service_is_idle,
}
use cppservicelib.Service.App.Ensured.{late_pool_is_kept}
use cppservicelib.Tests.Keys.{nat_key}

abbrev into_pool : CallSemantics ℕ
into_pool = record {
  function_call = none;
  task_pool = some 7;
  priority_task_pool = none;
  parallel_call = false;
}

abbrev configuration : Configured ℕ
configuration = record { default_call_semantics = none; links = some into_pool ∷ none ∷ [] }

abbrev is_nameless : ℕ → Bool
is_nameless a = a == 0

abbrev starting_well : Entry → Bool
starting_well _ = true

abbrev stopping_well : Entry → Waited
stopping_well _ = done

abbrev one_run : List (Call ℕ)
one_run =
    starts (some configuration) true starting_well stopping_well true true
    ∷ gets_task_pool (some configuration) 7
    ∷ stops stopping_well false
    ∷ stops stopping_well true
    ∷ []

stopped_service_is_idle_example :
    ((calls is_nameless one_run new_app).running ≡ false)
    × ((q : Entry) → is_active (calls is_nameless one_run new_app).lifecycle.log q ≡ false)
unfolding calls call start start_body stop get_task_pool ensure_configured_pools ensure_links
    ensure_call_semantics ensure_task_pool ensure_priority_task_pool register_delay_pool
    register_task_pool register_priority_task_pool register emplace find Lifecycle.add
    Lifecycle.start_impl Lifecycle.start_kinds Lifecycle.start_all Lifecycle.start_one
    Lifecycle.of_kind Lifecycle.stop_before_graph_drain Lifecycle.stop_after_graph_drain
    Lifecycle.stop_phase Lifecycle.launch_all Lifecycle.launch Lifecycle.wait_all Lifecycle.wait_for
    Lifecycle.drain_phases
stopped_service_is_idle_example = stopped_service_is_idle is_nameless one_run refl

-- A pool 9 that is made elsewhere, a second one under its name, and a question for the pool 7.
abbrev registered_pool : Entry
registered_pool = record { kind = Lifecycle.task_pool; identity = 100 }

abbrev registrations : List (Call ℕ)
registrations =
    registers_task_pool (some (9, registered_pool))
    ∷ registers_task_pool (some (9, registered_pool))
    ∷ gets_task_pool (some configuration) 7
    ∷ []

-- A service that runs, and meets the pool 8.
abbrev running_app : App ℕ
running_app = record new_app {
  lifecycle = record Lifecycle.new_lifecycle { state = Lifecycle.running };
  lifecycle_pending = true;
  running = true;
}

late_pool_is_kept_example :
    let r = ensure_task_pool is_nameless (some 8) running_app in
    (r.0 ≡ some (of_lifecycle not_created))
    × (r.1.lifecycle.entries ≡ [])
    × ((ensure_task_pool is_nameless (some 8) r.1).0 ≡ none)
    × (find 8 r.1.task_pools ≡ some (made Lifecycle.task_pool running_app))
unfolding find
late_pool_is_kept_example = late_pool_is_kept is_nameless 8 running_app refl refl refl
