-- ===== src/Tests/Rotating.antt =====
-- The rotating map at small inputs.
use cppservicelib.Prelude.{ℕ, ◌≡◌, refl, true, false, List, [], ◌∷◌, none, some, pos}
use cppservicelib.Tests.Keys.{nat_key}
use cppservicelib.Store.{ok, stopped}
use cppservicelib.Store.Rotating.{RotatingMap, Shard, fresh, make, start, begin_stop, finish_stop}
use cppservicelib.Store.Rotating.Refinement.{
  Op, puts, gets, pops, gets_or_creates, rotates_at, view, spec, run_op, Refines, run_op-Refines,
  run, spec_run, run-eq-spec_run, fresh-IsValid,
}
use cppservicelib.Store.Rotating.Lifecycle.{Call, starts, begins_stop, finishes_stop, turn, turns}

abbrev calls : List (Op ℕ ℕ)
calls =
    puts 3 30
    ∷ rotates_at 3
    ∷ gets 3
    ∷ puts 3 31
    ∷ rotates_at 3
    ∷ pops 3
    ∷ gets 3
    ∷ gets_or_creates 4 none
    ∷ gets_or_creates 4 (some 40)
    ∷ []

run-eq-spec_run_example :
    (m : RotatingMap ℕ ℕ) × (make (pos 5) 0 ≡ ok m)
    × ((run calls m).0 ≡ (spec_run calls (λ q. none)).0)
    × (view (run calls m).1 ≡ (spec_run calls (λ q. none)).1)
run-eq-spec_run_example = run-eq-spec_run (pos 5) 0 calls refl

run_op-Refines_example :
    Refines
      (run_op (puts 3 30) (fresh {K = ℕ} {V = ℕ} (pos 5) 0))
      (spec (puts 3 30) (view (fresh {K = ℕ} {V = ℕ} (pos 5) 0)))
run_op-Refines_example = run_op-Refines (puts 3 30) (fresh (pos 5) 0) (fresh-IsValid (pos 5) 0)

abbrev shrunk : Shard ℕ ℕ
shrunk = record { current = (1, 10) ∷ []; previous = (2, 20) ∷ []; high_water_mark = 9 }

abbrev grown : Shard ℕ ℕ
grown = record { current = (1, 10) ∷ []; previous = (2, 20) ∷ []; high_water_mark = 7 }

abbrev ended : RotatingMap ℕ ℕ
ended = record {
  interval = pos 5;
  min_capacity = 0;
  shards = [];
  state = stopped;
  timer_live = false;
}

abbrev contended : List Call
contended = starts true ∷ begins_stop ∷ begins_stop ∷ finishes_stop ∷ starts true ∷ begins_stop ∷ []

contended_stopped : (turns contended (fresh {K = ℕ} {V = ℕ} (pos 5) 0)).1.state ≡ stopped
unfolding turns turn start begin_stop finish_stop
contended_stopped = refl
