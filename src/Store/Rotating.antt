-- ===== src/Store/Rotating.antt =====
-- runtime/store/rotatingmap.hpp: the two-generation map, one atomic section for each lock that
-- the code takes. A section of one shard is a function of that shard.
pub mod Generations
pub mod Refinement
pub mod Size
pub mod Lifecycle
use cppservicelib.Prelude.{
  ℕ, ◌+◌, ◌-◌, ◌/◌, ◌%◌, Bool, true, false, not, ◌||◌, List, [], ◌∷◌, Option, none, some, map, ltb,
  ◌==◌, if◌then◌else◌, length, get_or, set, replicate, ℤ, is_positive,
}
use cppservicelib.Dict.{Key, Dict, find, contains, emplace, erase, merge}
use cppservicelib.Store.{
  Error, duplicate_key, invalid_interval, factory_threw, spawn_failed, already_started,
  stopped_error, Result, ok, err, State, created, running, stopping, stopped, failed, is_running,
}

abbrev pub shrink_factor : ℕ
shrink_factor = 4

abbrev pub shard_count : ℕ
shard_count = 64

abbrev pub default_min_capacity : ℕ
default_min_capacity = 1000

pub record Shard {ℓ} (K V : Type ℓ) : Type ℓ where
  pub current : Dict K V
  pub previous : Dict K V
  pub high_water_mark : ℕ

abbrev pub empty_shard {ℓ} : {K V : Type ℓ} → Shard K V
empty_shard = record { current = []; previous = []; high_water_mark = 0 }

-- `timer_live` is `timerTask_.IsValid()` of a task that was not cancelled.
pub record RotatingMap {ℓ} (K V : Type ℓ) : Type ℓ where
  pub interval : ℤ
  pub min_capacity : ℕ
  pub shards : List (Shard K V)
  pub state : State
  pub timer_live : Bool

abbrev pub fresh {ℓ} : {K V : Type ℓ} → ℤ → ℕ → RotatingMap K V
fresh interval min_capacity = record {
  interval = interval;
  min_capacity = min_capacity;
  shards = replicate shard_count empty_shard;
  state = created;
  timer_live = false;
}

-- The constructor.
unfoldable pub make {ℓ} : {K V : Type ℓ} → ℤ → ℕ → Result (RotatingMap K V)
make interval min_capacity =
    if not (is_positive interval) then err invalid_interval else ok (fresh interval min_capacity)

-- Whether the generation is due, from the mark before this pass.
unfoldable pub should_rotate : ℕ → ℕ → Bool
should_rotate high_water total =
    high_water == 0 || ltb total ((high_water + shrink_factor - 1) / shrink_factor)

module _ {ℓ} {K V : Type ℓ} ⦃key : Key K⦄ where
  unfoldable pub shard_get : K → Shard K V → Option V
  shard_get k s = elim (find k s.current) [ some v ↦ some v | none ↦ find k s.previous ]

  unfoldable pub shard_set : K → V → Shard K V → Result (Shard K V)
  shard_set k v s =
      if contains k s.current || contains k s.previous
      then err duplicate_key
      else ok (record s { current = emplace k v s.current })

  -- `factory` is the value that the factory would return, or `none` where it throws.
  unfoldable pub shard_get_or_create : K → Option V → Shard K V → Result (V × Bool) × Shard K V
  shard_get_or_create k factory s = elim (find k s.current) [
    | some v ↦ (ok (v, true), s)
    | none ↦ elim (find k s.previous) [
      | some v ↦ (ok (v, true), s)
      | none ↦ elim factory [
        | none ↦ (err factory_threw, s)
        | some v ↦ (ok (v, false), record s { current = emplace k v s.current })
      ]
    ]
  ]

  unfoldable pub shard_pop : K → Shard K V → Option V × Shard K V
  shard_pop k s = elim (find k s.current) [
    | some v ↦ (some v, record s { current = erase k s.current })
    | none ↦ elim (find k s.previous) [
      | some v ↦ (some v, record s { previous = erase k s.previous })
      | none ↦ (none, s)
    ]
  ]

  abbrev pub shard_size : Shard K V → ℕ
  shard_size s = length s.current + length s.previous

  -- `rotateShard`
  unfoldable pub rotate_shard : ℕ → Shard K V → Shard K V
  rotate_shard min_capacity s =
      let total = shard_size s in
      let due = should_rotate s.high_water_mark total in
      let mark = if ltb s.high_water_mark total then total else s.high_water_mark in
      if ltb mark min_capacity
      then record s { high_water_mark = mark }
      else if not due
      then record s { high_water_mark = mark }
      else record {
        current = [];
        previous = merge (merge [] s.current) s.previous;
        high_water_mark = total;
      }

module _ {ℓ} {K V : Type ℓ} ⦃key : Key K⦄ where
  -- `hash_(key) % shards_.size()`
  unfoldable pub shard_index : K → RotatingMap K V → ℕ
  shard_index k m = key.hash k % length m.shards

  unfoldable pub shard_for : K → RotatingMap K V → Shard K V
  unfolding shard_index
  shard_for k m = get_or m.shards (shard_index k m) empty_shard

  -- What a section leaves in the key's shard.
  unfoldable pub with_shard : K → Shard K V → RotatingMap K V → RotatingMap K V
  unfolding shard_index
  with_shard k s m = record m { shards = set m.shards (shard_index k m) s }

  unfoldable pub put : K → V → RotatingMap K V → Result (RotatingMap K V)
  put k v m = elim (shard_set k v (shard_for k m)) [ ok s ↦ ok (with_shard k s m) | err e ↦ err e ]

  unfoldable pub get_or_create :
      K → Option V → RotatingMap K V → Result (V × Bool) × RotatingMap K V
  get_or_create k factory m =
      let (r, s) = shard_get_or_create k factory (shard_for k m) in (r, with_shard k s m)

  unfoldable pub get : K → RotatingMap K V → Option V
  get k m = shard_get k (shard_for k m)

  unfoldable pub pop : K → RotatingMap K V → Option V × RotatingMap K V
  pop k m = let (r, s) = shard_pop k (shard_for k m) in (r, with_shard k s m)

  unfoldable pub sum_sizes : List (Shard K V) → ℕ
  sum_sizes [] = 0
  sum_sizes (s ∷ ss) = shard_size s + sum_sizes ss

  unfoldable pub size : RotatingMap K V → ℕ
  unfolding sum_sizes
  size m = sum_sizes m.shards

  -- One turn of the loop of `rotate`, under the mutex of shard `i`.
  unfoldable pub rotate_at : ℕ → RotatingMap K V → RotatingMap K V
  unfolding rotate_shard
  rotate_at i m = record m {
    shards = set m.shards i (rotate_shard m.min_capacity (get_or m.shards i empty_shard));
  }

  unfoldable pub rotate : RotatingMap K V → RotatingMap K V
  unfolding rotate_shard
  rotate m =
      if is_running m.state
      then record m { shards = map (rotate_shard m.min_capacity) m.shards }
      else m

  -- `timerLoop`: each round is what `ShouldCancel` says before the sleep and after it. The map may
  -- change during the sleep, which is when other calls run.
  unfoldable pub timer_loop :
      List (Bool × (RotatingMap K V → RotatingMap K V) × Bool) → RotatingMap K V → RotatingMap K V
  unfolding rotate
  timer_loop [] m = m
  timer_loop ((before, others, after) ∷ rounds) m =
      let rest = timer_loop rounds (rotate (others m)) in
      if before then m else if after then others m else rest

module _ {ℓ} {K V : Type ℓ} where
  -- `spawned` says whether the engine could spawn the timer task.
  unfoldable pub start : Bool → RotatingMap K V → Result (Unit {0}) × RotatingMap K V
  start spawned m = elim m.state [
    | created ↦
        if spawned
        then (ok tt, record m { state = running; timer_live = true })
        else (err spawn_failed, record m { state = failed })
    | running ↦ (err already_started, m)
    | failed ↦ (err already_started, m)
    | stopping ↦ (err stopped_error, m)
    | stopped ↦ (err stopped_error, m)
  ]

  -- The first section of `stop`. The flag says whether this call goes on to the second one: the
  -- others return at once, or wait for the state `stopped` and return.
  unfoldable pub begin_stop : RotatingMap K V → Bool × RotatingMap K V
  begin_stop m = elim m.state [
    | stopped ↦ (false, m)
    | stopping ↦ (false, m)
    | created ↦ (true, record m { state = stopping })
    | running ↦ (true, record m { state = stopping })
    | failed ↦ (true, record m { state = stopping })
  ]

  -- `SyncCancel` of the timer, and the last section.
  unfoldable pub finish_stop : RotatingMap K V → RotatingMap K V
  finish_stop m = record m { state = stopped; timer_live = false }

  -- The destructor aborts the process in any other state.
  unfoldable pub may_destroy : RotatingMap K V → Bool
  may_destroy m = elim m.state [ created ↦ true | stopped ↦ true | _ ↦ false ]
