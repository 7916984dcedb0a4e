-- ===== src/Service/App/Before.antt =====
-- runtime/serviceapp.hpp: the pools of a service that was not started yet.
use cppservicelib.Prelude.{◌≡◌, Bool, true, false}
use cppservicelib.Dict.{Dict}
use cppservicelib.Service.Lifecycle as Lifecycle
use cppservicelib.Service.Lifecycle.{is_created, index}
use cppservicelib.Service.App.{App, Outcome}
use cppservicelib.Service.App.Release.{
  Call, registers, registers_delay_pool, registers_task_pool, registers_priority_task_pool,
  gets_task_pool, gets_priority_task_pool, starts, stops,
}
use cppservicelib.Service.App.Ensured.{PoolsAreListed}

module _ {Name : Type 0} where
  -- The service was not started, and its lifecycle knows each of its pools.
  record IsListing (a : App Name) : Type 0 where
    created : is_created a.lifecycle.state ≡ true
    pools : PoolsAreListed a

  abbrev Lists : Outcome Name → Type 0
  Lists r = IsListing r.1

module _ {Name : Type 0} where
  -- A registration, or a question for a pool.
  abbrev pub is_before_start : Call Name → Bool
  is_before_start (registers p) = true
  is_before_start (registers_delay_pool p) = true
  is_before_start (registers_task_pool p) = true
  is_before_start (registers_priority_task_pool p) = true
  is_before_start (gets_task_pool c name) = true
  is_before_start (gets_priority_task_pool c name) = true
  is_before_start (starts c graph ok waits drains admission) = false
  is_before_start (stops waits drains) = false
