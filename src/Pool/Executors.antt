-- ===== src/Pool/Executors.antt =====
-- runtime/pool/taskpool.hpp: the executor slots. `allocated` counts the slots that are reserved,
-- for executors that run or are about to; counts of the type `int` stay far below its range.
use cppservicelib.Prelude.{
  ℕ, zero, suc, ◌+◌, ◌-◌, ◌≤◌, ◌<◌, ◌≡◌, Bool, true, false, List, [], ◌∷◌, Option, none, some, max,
  ltb, if◌then◌else◌, ℤ, pos, negsuc, arith,
}

pub record Slots : Type 0 where
  pub target : ℕ
  pub allocated : ℕ
  -- the handles in `executors_` of executors that have not finished
  pub handles : ℕ

-- `newTarget` of `managerLoop`: the configured count if it is positive, else that of the hardware,
-- and at least 1.
unfoldable pub new_target : Option ℤ → ℕ → ℕ
new_target (some (pos (suc n))) hardware = suc n
new_target (some (pos zero)) hardware = max hardware 1
new_target (some (negsuc n)) hardware = max hardware 1
new_target none hardware = max hardware 1

-- The loop of `reconcileExecutors`: how many slots it still has to fill, and whether each spawn
-- succeeds. The answer counts the new executors, and says whether a spawn threw.
unfoldable pub spawn_executors : ℕ → List Bool → ℕ → ℕ × Bool
spawn_executors zero spawns started = (started, true)
spawn_executors (suc n) [] started = spawn_executors n [] (started + 1)
spawn_executors (suc n) (true ∷ spawns) started = spawn_executors n spawns (started + 1)
spawn_executors (suc n) (false ∷ spawns) started = (started, false)

-- `reconcileExecutors`; `false` where it rethrows.
unfoldable pub reconcile : ℕ → List Bool → Slots → Bool × Slots
unfolding spawn_executors
reconcile target spawns s =
    if ltb target s.allocated
    then (true, record s { target = target })
    else let (started, fine) = spawn_executors (target - s.allocated) spawns 0 in
      (
        fine,
        record {
          target = target;
          allocated = s.allocated + started;
          handles = s.handles + started;
        },
      )

-- `shouldExitAsExcess`
unfoldable pub exit_as_excess : Slots → Bool × Slots
exit_as_excess s =
    if ltb s.target s.allocated
    then (true, record s { allocated = s.allocated - 1; handles = s.handles - 1 })
    else (false, s)

-- An executor that ends for another reason; `ExecutorSlotGuard` gives its slot back.
unfoldable pub exit_executor : Slots → Slots
exit_executor s = record s { allocated = s.allocated - 1; handles = s.handles - 1 }

spawn_executors_bounds :
    (n : ℕ) (spawns : List Bool) (started : ℕ)
    → (started ≤ (spawn_executors n spawns started).0)
      × ((spawn_executors n spawns started).0 ≤ started + n)
      × ((spawn_executors n spawns started).1 ≡ true
          → (spawn_executors n spawns started).0 ≡ started + n)
unfolding spawn_executors
spawn_executors_bounds zero spawns started = omega arith
spawn_executors_bounds (suc n) [] started =
    ground (arith, spawn_executors_bounds n [] (started + 1))
spawn_executors_bounds (suc n) (true ∷ spawns) started =
    ground (arith, spawn_executors_bounds n spawns (started + 1))
spawn_executors_bounds (suc n) (false ∷ spawns) started = ground arith

reconcile_cases :
    (target : ℕ) (spawns : List Bool) (s : Slots)
    → let (fine, t) = reconcile target spawns s in
      (s.allocated ≤ t.allocated)
      × (t.allocated ≤ max s.allocated target)
      × (t.handles + s.allocated ≡ s.handles + t.allocated)
      × (fine ≡ true → t.allocated ≡ max s.allocated target)
unfolding reconcile
reconcile_cases target spawns s =
    ground (arith, spawn_executors_bounds (target - s.allocated) spawns 0)

-- A reconciliation gives no slot back and takes none beyond the target, also where a spawn throws, and
-- each slot that it takes has an executor.
pub reconcile_bounds :
    (target : ℕ) (spawns : List Bool) (s : Slots)
    → (s.allocated ≤ (reconcile target spawns s).1.allocated)
      × ((reconcile target spawns s).1.allocated ≤ max s.allocated target)
      × ((reconcile target spawns s).1.handles + s.allocated
          ≡ s.handles + (reconcile target spawns s).1.allocated)
reconcile_bounds target spawns s =
    let (low, high, same, _) = reconcile_cases target spawns s in (low, high, same)

-- A reconciliation that does not throw fills the slots up to the target.
pub reconcile_reaches :
    (target : ℕ) (spawns : List Bool) (s : Slots)
    → (reconcile target spawns s).0 ≡ true
    → (reconcile target spawns s).1.allocated ≡ max s.allocated target
reconcile_reaches target spawns s e =
    let (_, _, _, fills) = reconcile_cases target spawns s in fills e

pub exit_as_excess_lem :
    (s : Slots)
    → let (left, t) = exit_as_excess s in
      (left ≡ true
        → (s.target < s.allocated) × (t.allocated + 1 ≡ s.allocated) × (s.target ≤ t.allocated))
      × (left ≡ false → (s.allocated ≤ s.target) × (t ≡ s))
unfolding exit_as_excess
exit_as_excess_lem s = ground arith

pub new_target-pos : (configured : Option ℤ) (hardware : ℕ) → 0 < new_target configured hardware
unfolding new_target
new_target-pos none hardware = omega arith
new_target-pos (some (pos zero)) hardware = omega arith
new_target-pos (some (pos (suc n))) hardware = omega arith
new_target-pos (some (negsuc n)) hardware = omega arith
