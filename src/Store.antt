-- ===== src/Store.antt =====
-- runtime/store/storage.hpp: what the stores have in common, their errors and their states.

pub mod Rotating
pub mod HashJoin
use cppservicelib.Prelude.{Bool, true, false, ◌≡◌, refl, ◌⊎◌, inl, inr}

pub data Error : Type 0 where
  already_started stopped_error not_started duplicate_key unsupported : Error
  -- std::invalid_argument of a constructor
  invalid_interval : Error
  -- an exception of the caller's factory, or of the engine that spawns a task
  factory_threw spawn_failed : Error

pub data Result {ℓ} (A : Type ℓ) : Type ℓ where
  ok : A → Result A
  err : Error → Result A

-- `enum class State` of both stores.
pub data State : Type 0 where
  created running stopping stopped failed : State

abbrev pub is_running : State → Bool
is_running running = true
is_running _ = false

-- To split on a computed result and keep the equation.
pub Result-cases {ℓ} :
    {A : Type ℓ} (r : Result A) → ((a : A) × (r ≡ ok a)) ⊎ ((e : Error) × (r ≡ err e))
Result-cases (ok a) = inl (a, refl)
Result-cases (err e) = inr (e, refl)
