-- ===== src/Store/Rotating/Lifecycle.antt =====
-- runtime/store/rotatingmap.hpp: `start` and `stop` of any number of callers.
use cppservicelib.Prelude.{
  ℕ, ◌+◌, ◌≤◌, ◌≡◌, refl, ◌⊎◌, Bool, true, false, List, [], ◌∷◌, if◌then◌else◌, ℤ, arith,
}
use cppservicelib.Store.{State, created, running, stopping, stopped}
use cppservicelib.Store.Rotating.{RotatingMap, fresh, start, begin_stop, finish_stop}

pub data Call : Type 0 where
  starts : Bool → Call
  begins_stop : Call
  -- the owner of the stop, whose `SyncCancel` came back
  finishes_stop : Call

-- A stop has an owner from `stopping` on.
abbrev past : State → ℕ
past stopping = 1
past stopped = 1
past _ = 0

past-le-one : (s : State) → past s ≤ 1
past-le-one created = omega arith
past-le-one _ = omega arith

module _ {ℓ} {K V : Type ℓ} where
  -- Only a caller that `begin_stop` let through comes to `finish_stop`, and the state is
  -- `stopping` from then on.
  finish_turn : State → RotatingMap K V → RotatingMap K V
  finish_turn stopping m = finish_stop m
  finish_turn _ m = m

  -- One section of one caller; the number says whether it became the owner of the stop.
  unfoldable pub turn : Call → RotatingMap K V → ℕ × RotatingMap K V
  unfolding finish_turn
  turn (starts spawned) m = (0, (start spawned m).1)
  turn begins_stop m = let (owner, n) = begin_stop m in (if owner then 1 else 0, n)
  turn finishes_stop m = (0, finish_turn m.state m)

  unfoldable pub turns : List Call → RotatingMap K V → ℕ × RotatingMap K V
  turns [] m = (0, m)
  turns (c ∷ cs) m =
      let (owner, n) = turn c m in let (owners, last) = turns cs n in (owner + owners, last)

  abbrev pub TimerIsOwned : RotatingMap K V → Type 0
  TimerIsOwned m = m.timer_live ≡ true → (m.state ≡ running) ⊎ (m.state ≡ stopping)

  turn-past :
      (c : Call) (m : RotatingMap K V) → (turn c m).0 + past m.state ≤ past (turn c m).1.state
  unfolding turn start begin_stop finish_stop
  turn-past (starts spawned) m = ground arith
  turn-past _ m = ground arith

  turn-TimerIsOwned : (c : Call) (m : RotatingMap K V) → TimerIsOwned m → TimerIsOwned (turn c m).1
  unfolding turn start begin_stop finish_stop
  turn-TimerIsOwned (starts spawned) m h = ground arith
  turn-TimerIsOwned _ m h = ground arith

  turns-past :
      (cs : List Call) (m : RotatingMap K V)
      → (turns cs m).0 + past m.state ≤ past (turns cs m).1.state
  unfolding turns
  turns-past [] m = omega arith
  turns-past (c ∷ cs) m = omega (arith, turn-past c m, turns-past cs (turn c m).1)

  turns-TimerIsOwned :
      (cs : List Call) (m : RotatingMap K V) → TimerIsOwned m → TimerIsOwned (turns cs m).1
  unfolding turns
  turns-TimerIsOwned [] m h = h
  turns-TimerIsOwned (c ∷ cs) m h = turns-TimerIsOwned cs (turn c m).1 (turn-TimerIsOwned c m h)

  turn_stopped : (c : Call) (m : RotatingMap K V) → m.state ≡ stopped → turn c m ≡ (0, m)
  unfolding turn start begin_stop finish_stop
  turn_stopped (starts spawned) m e = ground arith
  turn_stopped _ m e = ground arith

  -- A stopped map stays as it is: no later call starts it again or stops it again.
  pub stopped_stays :
      (cs : List Call) (m : RotatingMap K V) → m.state ≡ stopped → turns cs m ≡ (0, m)
  unfolding turns
  stopped_stays [] m e = refl
  stopped_stays (c ∷ cs) m e = rw (turn_stopped c m e, stopped_stays cs m e) refl

owners_and_timer {ℓ} :
    (K V : Type ℓ) (cs : List Call) (d : ℤ) (n : ℕ)
    → let (owners, m) = turns cs (fresh {K = K} {V = V} d n) in
      (owners ≤ 1) × (m.state ≡ stopped → m.timer_live ≡ false)
owners_and_timer K V cs d n =
    let m : RotatingMap K V = fresh d n in
    let owned = turns-TimerIsOwned cs m (λ e. cc) in
    (omega (arith, turns-past cs m, past-le-one (turns cs m).1.state), λ e. ground arith)

-- However many callers start and stop a new map, in any order, at most one of the stops cancels
-- the timer.
pub stop_has_one_owner {ℓ} :
    (K V : Type ℓ) (cs : List Call) (d : ℤ) (n : ℕ) → (turns cs (fresh {K = K} {V = V} d n)).0 ≤ 1
stop_has_one_owner K V cs d n = (owners_and_timer K V cs d n).0

-- However many callers start and stop a new map, in any order: if it ends stopped, it has no timer
-- left.
pub stopped_without_timer {ℓ} :
    (K V : Type ℓ) (cs : List Call) (d : ℤ) (n : ℕ)
    → (turns cs (fresh {K = K} {V = V} d n)).1.state ≡ stopped
    → (turns cs (fresh {K = K} {V = V} d n)).1.timer_live ≡ false
stopped_without_timer K V cs d n e = (owners_and_timer K V cs d n).1 e
