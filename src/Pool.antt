-- ===== src/Pool.antt =====
-- runtime/pool/taskpool.hpp: the lifecycle of a pool and its executors. Each function is one
-- section: what a thread does under `mu_`, or one compare-and-exchange with what follows from it.
-- The priority pool (runtime/pool/prioritytaskpool.hpp) has the same lifecycle, line for line.
pub mod Executors
pub mod Steps
pub mod DeadlineHeap
pub mod TaskPool
pub mod Links
pub mod Fifo
pub mod Requeue
pub mod Promotion
pub mod Admission
pub mod Admitted
pub mod PriorityHeap
pub mod PriorityPool
pub mod DelayPool
use cppservicelib.Prelude.{ℕ, ◌+◌, Bool, true, false, Option, none, some, if◌then◌else◌}

-- pool.hpp: the exceptions of the pools, and what the engine throws.
pub data Error : Type 0 where
  already_started pool_stopped not_started cancelled_error start_failed spawn_error self_stop :
      Error

pub data Result {ℓ} (A : Type ℓ) : Type ℓ where
  ok : A → Result A
  err : Error → Result A

pub data PoolState : Type 0 where
  created starting running draining stopping stopped failed : PoolState

pub data StartupResult : Type 0 where
  pending ready cancelled stopped_first failed_first : StartupResult

pub record Lifecycle : Type 0 where
  pub state : PoolState
  pub startup : StartupResult
  pub done : Bool
  -- `fieldsPublished_` and `readyEvent_` were sent
  pub published : Bool
  pub ready_sent : Bool
  -- `managerTask_.IsValid()`, and `cancelWatches_` has a value
  pub manager : Bool
  pub watches : Bool

abbrev pub new_lifecycle : Lifecycle
new_lifecycle = record {
  state = created;
  startup = pending;
  done = false;
  published = false;
  ready_sent = false;
  manager = false;
  watches = false;
}

-- `resolveStartup`: only the first result counts. The flag is that of the exchange.
unfoldable pub resolve_startup : StartupResult → Lifecycle → Bool × Lifecycle
resolve_startup r s = elim s.startup [
  | pending ↦ (true, record s { startup = r })
  | ready ↦ (false, s)
  | cancelled ↦ (false, s)
  | stopped_first ↦ (false, s)
  | failed_first ↦ (false, s)
]

-- `start`, its first exchange.
unfoldable pub claim_start : Lifecycle → Result (Unit {0}) × Lifecycle
claim_start s = elim s.state [
  | created ↦ (ok tt, record s { state = starting })
  | draining ↦ (err pool_stopped, s)
  | stopping ↦ (err pool_stopped, s)
  | stopped ↦ (err pool_stopped, s)
  | starting ↦ (err already_started, s)
  | running ↦ (err already_started, s)
  | failed ↦ (err already_started, s)
]

-- `compare_exchange_strong(fromStarting, to)`
unfoldable pub from_starting : PoolState → Lifecycle → Bool × Lifecycle
from_starting to s = elim s.state [
  | starting ↦ (true, record s { state = to })
  | created ↦ (false, s)
  | running ↦ (false, s)
  | draining ↦ (false, s)
  | stopping ↦ (false, s)
  | stopped ↦ (false, s)
  | failed ↦ (false, s)
]

-- `start`: the watches are made, the manager is spawned and the fields are published, or the spawn
-- throws behind the watches.
unfoldable pub publish_fields : Bool → Lifecycle → Result (Unit {0}) × Lifecycle
unfolding from_starting
publish_fields spawned s =
    if spawned
    then (ok tt, record s { published = true; manager = true; watches = true })
    else (err spawn_error, (from_starting failed (record s { published = true; watches = true })).1)

-- `start` after `readyEvent_`: the `switch` on the startup result.
unfoldable pub finish_start : Lifecycle → Result (Unit {0}) × Lifecycle
unfolding from_starting
finish_start s = elim s.startup [
  | ready ↦ let (won, t) = from_starting running s in (if won then ok tt else err pool_stopped, t)
  | cancelled ↦
      let (won, t) = from_starting failed s in
      (if won then err cancelled_error else err pool_stopped, t)
  | stopped_first ↦ (err pool_stopped, (from_starting failed s).1)
  | pending ↦ (err pool_stopped, (from_starting failed s).1)
  | failed_first ↦
      let (won, t) = from_starting failed s in
      (if won then err start_failed else err pool_stopped, t)
]

-- `stop` up to where `mu_` is released. `none` returns, at once or when the owner is done;
-- otherwise this call owns the stop, and the state before is given.
unfoldable pub claim_stop : Lifecycle → Option PoolState × Lifecycle
claim_stop s = elim s.state [
  | stopped ↦ (none, s)
  | stopping ↦ (none, s)
  | created ↦ (some created, record s { state = stopping; done = true })
  | starting ↦ (some starting, record s { state = stopping; done = true })
  | running ↦ (some running, record s { state = stopping; done = true })
  | draining ↦ (some draining, record s { state = stopping; done = true })
  | failed ↦ (some failed, record s { state = stopping; done = true })
]

-- `stop`: the owner resolves a startup that is still open, and cancels the manager.
unfoldable pub stop_manager : Lifecycle → Lifecycle
unfolding resolve_startup
stop_manager s =
    if s.manager
    then record (resolve_startup stopped_first s).1 { ready_sent = true; manager = false }
    else s

-- `stop`: the last store, after the executors and the cancel watches are gone.
unfoldable pub finish_stop : Lifecycle → Lifecycle
finish_stop s = record s { state = stopped; watches = false }

-- `requestDrainFromManager`
unfoldable pub request_drain : Lifecycle → Lifecycle
request_drain s = elim s.state [
  | starting ↦ record s { state = draining; done = true }
  | running ↦ record s { state = draining; done = true }
  | created ↦ s
  | draining ↦ s
  | stopping ↦ s
  | stopped ↦ s
  | failed ↦ s
]

-- `managerLoop`, where it finds its lifecycle context cancelled or past its deadline.
unfoldable pub manager_cancelled : Lifecycle → Lifecycle
unfolding resolve_startup request_drain
manager_cancelled s =
    let (won, t) = resolve_startup cancelled s in
    record (if won then t else request_drain t) { ready_sent = true }

-- `managerLoop`, where it finds `done_`.
unfoldable pub manager_done : Lifecycle → Lifecycle
unfolding resolve_startup
manager_done s = record (resolve_startup stopped_first s).1 { ready_sent = true }

-- `managerLoop`, where no executor could be spawned for a pool that is not ready.
unfoldable pub manager_failed : Lifecycle → Lifecycle
unfolding resolve_startup
manager_failed s = record (resolve_startup failed_first s).1 { ready_sent = true }

-- `managerLoop` after a reconciliation.
unfoldable pub manager_ready : Lifecycle → Lifecycle
unfolding resolve_startup
manager_ready s = record (resolve_startup ready s).1 { ready_sent = true }

abbrev pub is_stopping_state : PoolState → Bool
is_stopping_state draining = true
is_stopping_state stopping = true
is_stopping_state stopped = true
is_stopping_state _ = false

abbrev pub is_running : PoolState → Bool
is_running running = true
is_running _ = false
