-- ===== src/Service/App.antt =====
-- runtime/serviceapp.hpp: ServiceApp. A pool is its entry in the lifecycle; the names of pools and their
-- test for being empty are arguments. What the graph does (startExecutionRuntime, the drain) is one too.
pub mod Registry
pub mod Release
pub mod Ensured
pub mod Before
use cppservicelib.Prelude.{
  ℕ, ◌+◌, Bool, true, false, not, ◌&&◌, ◌||◌, List, [], ◌∷◌, Option, none, some, ◌==◌,
  if◌then◌else◌, is_some, ℤ,
}
use cppservicelib.Dict.{Key, Dict, find, contains, emplace}
use cppservicelib.Stream.Caller.{CallSemantics}
use cppservicelib.Service.Lifecycle as Lifecycle
use cppservicelib.Service.Lifecycle.{
  ComponentKind, data_source, data_sink, storage, delay_pool, task_pool, priority_task_pool,
  component, Entry, Waited, new_lifecycle,
}

pub data Error (Name : Type 0) : Type 0 where
  of_lifecycle : Lifecycle.Error → Error Name
  delay_pool_registered null_pool no_runtime_config empty_pool_name : Error Name
  duplicate_pool : Name → Error Name
  already_active runtime_not_started drain_expired : Error Name

-- `delays` is `delayPool_`, and `next` the address of the next object that is made.
pub record App (Name : Type 0) : Type 0 where
  pub delays : Option Entry
  pub task_pools : Dict Name Entry
  pub priority_task_pools : Dict Name Entry
  pub lifecycle : Lifecycle.Lifecycle
  pub running : Bool
  pub lifecycle_pending : Bool
  pub next : ℕ

abbrev pub Outcome : Type 0 → Type 0
Outcome Name = Option (Error Name) × App Name

module _ {Name : Type 0} where
  abbrev pub new_app : App Name
  new_app = record {
    delays = none;
    task_pools = [];
    priority_task_pools = [];
    lifecycle = new_lifecycle;
    running = false;
    lifecycle_pending = false;
    next = 0;
  }

  -- What follows runs where nothing was thrown.
  abbrev pub and_then : Outcome Name → (App Name → Outcome Name) → Outcome Name
  and_then (none, a) f = f a
  and_then (some e, a) f = (some e, a)

  -- What the lifecycle throws is thrown on.
  abbrev pub passed_on : App Name → Lifecycle.Outcome → Outcome Name
  passed_on a (none, s) = (none, record a { lifecycle = s })
  passed_on a (some e, s) = (some (of_lifecycle e), record a { lifecycle = s })

  -- `makeDelayPool`, `makeTaskPool` and `makePriorityTaskPool`: a new object.
  abbrev pub made : ComponentKind → App Name → Entry
  made k a = record { kind = k; identity = a.next }

  -- `registerDataSource`, `registerDataSink`, `registerStorage`, `addComponent`
  unfoldable pub register : Option Entry → App Name → Outcome Name
  register p a = passed_on a (Lifecycle.add p a.lifecycle)

  unfoldable pub register_delay_pool : Option Entry → App Name → Outcome Name
  unfolding register
  register_delay_pool p a =
      if is_some a.delays
      then (some delay_pool_registered, a)
      else register p (record a { delays = p })

module _ {Name : Type 0} ⦃names : Key Name⦄ where
  -- `registerTaskPool`, of the pool with its name
  unfoldable pub register_task_pool : Option (Name × Entry) → App Name → Outcome Name
  unfolding register
  register_task_pool none a = (some null_pool, a)
  register_task_pool (some (name, p)) a =
      if contains name a.task_pools
      then (some (duplicate_pool name), a)
      else register (some p) (record a { task_pools = emplace name p a.task_pools })

  unfoldable pub register_priority_task_pool : Option (Name × Entry) → App Name → Outcome Name
  unfolding register
  register_priority_task_pool none a = (some null_pool, a)
  register_priority_task_pool (some (name, p)) a =
      if contains name a.priority_task_pools
      then (some (duplicate_pool name), a)
      else register (some p)
          (record a { priority_task_pools = emplace name p a.priority_task_pools })

  abbrev pub ensure_delay_pool : App Name → Outcome Name
  ensure_delay_pool a =
      if is_some a.delays
      then (none, a)
      else register_delay_pool (some (made delay_pool a)) (record a { next = a.next + 1 })

module _ {Name : Type 0} ⦃names : Key Name⦄ (is_empty : Name → Bool) where
  -- `ensureCallSemantics`, its two halves
  unfoldable pub ensure_task_pool : Option Name → App Name → Outcome Name
  unfolding register_task_pool
  ensure_task_pool none a = (none, a)
  ensure_task_pool (some name) a =
      if is_empty name
      then (some empty_pool_name, a)
      else if contains name a.task_pools
      then (none, a)
      else register_task_pool (some (name, made task_pool a)) (record a { next = a.next + 1 })

  unfoldable pub ensure_priority_task_pool : Option Name → App Name → Outcome Name
  unfolding register_priority_task_pool
  ensure_priority_task_pool none a = (none, a)
  ensure_priority_task_pool (some name) a =
      if is_empty name
      then (some empty_pool_name, a)
      else if contains name a.priority_task_pools
      then (none, a)
      else register_priority_task_pool (some (name, made priority_task_pool a))
          (record a { next = a.next + 1 })

  abbrev name_of : Option (Name × ℤ) → Option Name
  name_of none = none
  name_of (some (name, priority)) = some name

  unfoldable pub ensure_call_semantics : CallSemantics Name → App Name → Outcome Name
  unfolding ensure_task_pool ensure_priority_task_pool
  ensure_call_semantics s a =
      and_then (ensure_task_pool s.task_pool a)
        (ensure_priority_task_pool (name_of s.priority_task_pool))

  -- The default of the service, or a link: where it has no semantics, there is nothing to ensure.
  abbrev pub ensure_optional : Option (CallSemantics Name) → App Name → Outcome Name
  ensure_optional none a = (none, a)
  ensure_optional (some s) a = ensure_call_semantics s a

  unfoldable pub ensure_links : List (Option (CallSemantics Name)) → App Name → Outcome Name
  unfolding ensure_call_semantics
  ensure_links [] a = (none, a)
  ensure_links (l ∷ ls) a = and_then (ensure_optional l a) (ensure_links ls)

-- What the service reads of the published configuration: the default of the service, and the links.
pub record Configured (Name : Type 0) : Type 0 where
  pub default_call_semantics : Option (CallSemantics Name)
  pub links : List (Option (CallSemantics Name))

module _ {Name : Type 0} where
  -- `releaseOwnedRuntimeObjects`
  abbrev pub release : App Name → App Name
  release a = record a {
    delays = none;
    task_pools = [];
    priority_task_pools = [];
    lifecycle_pending = false;
  }

  -- The catch of `startImpl`: what the stop of the lifecycle throws is dropped.
  abbrev cleaned_up : Bool → App Name → Lifecycle.Outcome → App Name
  cleaned_up drains a (none, s) =
      if drains then release (record a { lifecycle = s }) else record a { lifecycle = s }
  cleaned_up drains a (some e, s) = record a { lifecycle = s }

  abbrev started_or_cleaned_up : (Entry → Waited) → Bool → Outcome Name → Outcome Name
  started_or_cleaned_up waits drains (none, a) = (none, record a { running = true })
  started_or_cleaned_up waits drains (some e, a) =
      (some e, cleaned_up drains (record a { running = false }) (Lifecycle.stop waits a.lifecycle))

  -- `stop`, from the answer of drainExecutionRuntime on
  abbrev after_drain : (Entry → Waited) → Bool → App Name → Outcome Name
  after_drain waits false b = (some drain_expired, b)
  after_drain waits true b =
      and_then (passed_on b (Lifecycle.stop_after_graph_drain waits b.lifecycle))
        λ c. (none, release c)

  unfoldable pub stop : (Entry → Waited) → Bool → App Name → Outcome Name
  stop waits drains a =
      if not a.lifecycle_pending
      then (none, a)
      else and_then
          (passed_on (record a { running = false })
            (Lifecycle.stop_before_graph_drain waits a.lifecycle))
          (after_drain waits drains)

module _ {Name : Type 0} ⦃names : Key Name⦄ (is_empty : Name → Bool) where
  abbrev ensure_published : Option (Configured Name) → App Name → Outcome Name
  ensure_published none a = (some no_runtime_config, a)
  ensure_published (some c) a =
      and_then (ensure_optional is_empty c.default_call_semantics a) (ensure_links is_empty c.links)

  unfoldable pub ensure_configured_pools : Option (Configured Name) → App Name → Outcome Name
  unfolding ensure_links ensure_call_semantics register_delay_pool
  ensure_configured_pools config a = and_then (ensure_delay_pool a) (ensure_published config)

  -- `getTaskPool`, `getPriorityTaskPool`: the error, or what is found.
  unfoldable pub get_task_pool :
      Option (Configured Name) → Name → App Name → Outcome Name × Option Entry
  unfolding ensure_configured_pools
  get_task_pool config name a =
      let r = ensure_configured_pools config a in
      (r, (if is_some r.0 then none else find name r.1.task_pools))

  unfoldable pub get_priority_task_pool :
      Option (Configured Name) → Name → App Name → Outcome Name × Option Entry
  unfolding ensure_configured_pools
  get_priority_task_pool config name a =
      let r = ensure_configured_pools config a in
      (r, (if is_some r.0 then none else find name r.1.priority_task_pools))

  -- The body of the try: `graph_starts` tells whether startExecutionRuntime returns.
  unfoldable pub start_body :
      Option (Configured Name)
      → Bool
      → (Entry → Bool)
      → (Entry → Waited)
      → Bool
      → App Name
      → Outcome Name
  unfolding ensure_configured_pools
  start_body config graph_starts starts waits admission a =
      and_then (ensure_configured_pools config a) λ b.
        if graph_starts
        then passed_on b (Lifecycle.start_impl starts waits admission b.lifecycle)
        else (some runtime_not_started, b)

  -- `startImpl`: `drains` is the answer of stopExecutionRuntime, where it is asked.
  unfoldable pub start :
      Option (Configured Name)
      → Bool
      → (Entry → Bool)
      → (Entry → Waited)
      → Bool
      → Bool
      → App Name
      → Outcome Name
  unfolding start_body
  start config graph_starts starts waits drains admission a =
      if a.lifecycle_pending
      then (some already_active, a)
      else started_or_cleaned_up waits drains (
          start_body config graph_starts starts waits admission
            (record a { lifecycle_pending = true }))
