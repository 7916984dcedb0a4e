-- ===== src/Pool/Steps.antt =====
-- runtime/pool/taskpool.hpp: the lifecycle of a pool, whatever its callers and its manager do.
use cppservicelib.Prelude.{
  ℕ, ◌≤◌, ◌≡◌, ◌↔◌, refl, Bool, true, false, not, ◌&&◌, List, [], ◌∷◌, if◌then◌else◌, arith,
}
use cppservicelib.Pool.{
  ok, PoolState, created, starting, running, draining, stopping, stopped, failed, ready, Lifecycle,
  new_lifecycle, claim_start, publish_fields, finish_start, claim_stop, stop_manager, finish_stop,
  manager_cancelled, manager_done, manager_failed, manager_ready, is_stopping_state, is_running,
}

pub data Step : Type 0 where
  claims_start : Step
  publishes : Bool → Step
  finishes_start : Step
  claims_stop stops_manager finishes_stop : Step
  finds_cancelled finds_done finds_failure finds_ready : Step

abbrev is_stopping : PoolState → Bool
is_stopping stopping = true
is_stopping _ = false

-- A step happens where its thread can be there: `start` waits for the manager's event, the owner of
-- a stop comes after the state `stopping`, and the manager runs until it is cancelled.
pub step : Step → Lifecycle → Lifecycle
step claims_start s = (claim_start s).1
step (publishes spawned) s = if s.published then s else (publish_fields spawned s).1
step finishes_start s = if s.ready_sent then (finish_start s).1 else s
step claims_stop s = (claim_stop s).1
step stops_manager s = if is_stopping s.state then stop_manager s else s
step finishes_stop s = if is_stopping s.state && not s.manager then finish_stop s else s
step finds_cancelled s = if s.manager then manager_cancelled s else s
step finds_done s = if s.manager && s.done then manager_done s else s
step finds_failure s = if s.manager then manager_failed s else s
step finds_ready s = if s.manager then manager_ready s else s

pub steps : List Step → Lifecycle → Lifecycle
steps [] s = s
steps (x ∷ xs) s = steps xs (step x s)

-- The order in which a pool goes through its states.
abbrev pub rank : PoolState → ℕ
rank created = 0
rank starting = 1
rank running = 2
rank failed = 3
rank draining = 3
rank stopping = 4
rank stopped = 5

pub record IsValid (s : Lifecycle) : Type 0 where
  -- `done_` is set exactly when the pool takes no more tasks for good
  pub done_stopping : s.done ≡ is_stopping_state s.state
  pub running_ready : s.state ≡ running → s.startup ≡ ready

step-IsValid : (x : Step) (s : Lifecycle) → IsValid s → IsValid (step x s)
unfolding step claim_start publish_fields finish_start claim_stop stop_manager finish_stop
    manager_cancelled manager_done manager_failed manager_ready
step-IsValid claims_start s v = ground arith
step-IsValid (publishes spawned) s v = ground arith
step-IsValid _ s v = ground arith

step-rank : (x : Step) (s : Lifecycle) → rank s.state ≤ rank (step x s).state
unfolding step claim_start publish_fields finish_start claim_stop stop_manager finish_stop
    manager_cancelled manager_done manager_failed manager_ready
step-rank claims_start s = ground arith
step-rank (publishes spawned) s = ground arith
step-rank _ s = ground arith

new-IsValid : IsValid new_lifecycle
new-IsValid = record { done_stopping = refl; running_ready = λ e. cc }

steps-IsValid : (xs : List Step) (s : Lifecycle) → IsValid s → IsValid (steps xs s)
unfolding steps
steps-IsValid [] s v = v
steps-IsValid (x ∷ xs) s v = steps-IsValid xs (step x s) (step-IsValid x s v)

-- Whatever callers start and stop a new pool and whatever its manager finds: `done_` is set exactly
-- while the pool drains, stops or is stopped, and a pool that runs has a manager that was ready.
pub lifecycle-IsValid : (xs : List Step) → IsValid (steps xs new_lifecycle)
lifecycle-IsValid xs = steps-IsValid xs new_lifecycle new-IsValid

-- The rank of the state never falls, in the order created, starting, running, draining or failed,
-- stopping, stopped.
pub steps-rank : (xs : List Step) (s : Lifecycle) → rank s.state ≤ rank (steps xs s).state
unfolding steps
steps-rank [] s = omega arith
steps-rank (x ∷ xs) s = omega (arith, step-rank x s, steps-rank xs (step x s))

running_rank :
    (a b : PoolState) → is_stopping_state a ≡ true → rank a ≤ rank b → is_running b ≡ false
running_rank a b e h = ground arith

-- A pool that drains, stops or is stopped never runs again, whatever is called on it.
pub stopping_never_runs :
    (xs : List Step) (s : Lifecycle)
    → is_stopping_state s.state ≡ true
    → is_running (steps xs s).state ≡ false
stopping_never_runs xs s e = running_rank s.state (steps xs s).state e (steps-rank xs s)

finish_start_cases :
    (s : Lifecycle)
    → let (answer, t) = finish_start s in
      ((answer ≡ ok tt) ↔ ((s.state ≡ starting) × (s.startup ≡ ready)))
      × (answer ≡ ok tt → t.state ≡ running)
unfolding finish_start
finish_start_cases s = (ground arith, λ e. ground arith)

-- A start reports success exactly where its own exchange makes a pool run whose manager was ready.
pub finish_start_succeeds :
    (s : Lifecycle)
    → ((finish_start s).0 ≡ ok tt)
      ↔ ((s.state ≡ starting) × (s.startup ≡ ready) × ((finish_start s).1.state ≡ running))
finish_start_succeeds s =
    let (same, runs) = finish_start_cases s in
    (λ e. let (a, b) = same.0 e in (a, b, runs e), λ h. same.1 (h.0, h.1))
