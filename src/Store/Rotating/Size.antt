-- ===== src/Store/Rotating/Size.antt =====
-- runtime/store/rotatingmap.hpp: how each call changes the number of entries.
use cppservicelib.Prelude.{
  ℕ, zero, suc, ◌+◌, ◌<◌, ◌≡◌, refl, inl, inr, Bool, true, false, List, [], ◌∷◌, if◌then◌else◌,
  is_some, length, get_or, set, Option-cases, arith,
}
use cppservicelib.Dict.{Key}
use cppservicelib.Store.Rotating.{
  Shard, RotatingMap, empty_shard, shard_size, shard_get_or_create, shard_pop, rotate_shard,
  shard_index, shard_for, with_shard, get_or_create, pop, sum_sizes, size, rotate_at,
}
use cppservicelib.Store.Rotating.Generations.{
  set-view, set-refuses, get_or_create-size, pop-size, rotate-size, ShardIsValid,
}
use cppservicelib.Store.Rotating.Refinement.{
  Op, puts, gets, pops, gets_or_creates, rotates_at, IsValid, view, run_op, index-lt, put_ok,
  put_err,
}

abbrev one_if : Bool → ℕ
one_if true = 1
one_if false = 0

module _ {ℓ} {K V : Type ℓ} ⦃key : Key K⦄ where
  sum_sizes-set :
      (ss : List (Shard K V)) (i : ℕ) (s : Shard K V)
      → i < length ss
      → sum_sizes (set ss i s) + shard_size (get_or ss i empty_shard) ≡ sum_sizes ss + shard_size s
  unfolding sum_sizes
  sum_sizes-set [] i s h = elim h [ ]
  sum_sizes-set (x ∷ ss) zero s h = omega arith
  sum_sizes-set (x ∷ ss) (suc i) s h = omega (arith, sum_sizes-set ss i s)

  size-with_shard :
      (k : K) (s : Shard K V) (m : RotatingMap K V)
      → IsValid m
      → size (with_shard k s m) + shard_size (shard_for k m) ≡ size m + shard_size s
  unfolding size with_shard shard_for
  size-with_shard k s m h = sum_sizes-set m.shards (shard_index k m) s (index-lt k m h)

  sum_sizes-rotate :
      (n : ℕ) (ss : List (Shard K V)) (i : ℕ)
      → ((j : ℕ) → ShardIsValid (get_or ss j empty_shard))
      → sum_sizes (set ss i (rotate_shard n (get_or ss i empty_shard))) ≡ sum_sizes ss
  unfolding sum_sizes
  sum_sizes-rotate n [] i h = refl
  sum_sizes-rotate n (x ∷ ss) zero h = omega (arith, rotate-size n x (h 0))
  sum_sizes-rotate n (x ∷ ss) (suc i) h = omega (arith, sum_sizes-rotate n ss i (λ j. h (suc j)))

  -- The entries that a call adds, and those that it removes.
  abbrev pub added : Op K V → RotatingMap K V → ℕ
  added (puts k v) m = if is_some (view m k) then 0 else 1
  added (gets_or_creates k factory) m = if is_some (view m k) then 0 else one_if (is_some factory)
  added _ m = 0

  abbrev pub removed : Op K V → RotatingMap K V → ℕ
  removed (pops k) m = one_if (is_some (view m k))
  removed _ m = 0

  size-put :
      (k : K) (v : V) (m : RotatingMap K V)
      → IsValid m
      → size (run_op (puts k v) m).0 ≡ size m + (if is_some (view m k) then 0 else 1)
  unfolding run_op
  size-put k v m h = elim (Option-cases (view m k)) [
    | inl free ↦
        let (t, e, _, larger) = set-view k v (shard_for k m) free in
        rw (put_ok k v m e, free) (omega (arith, size-with_shard k t m h))
    | inr (w, held) ↦
        rw (put_err k v m (set-refuses k v (shard_for k m) (rw held refl)), held) (omega arith)
  ]

  -- `size` counts the entries: a new key adds one, a key that is removed takes one away, and no
  -- other call and no rotation changes it.
  pub size-run_op :
      (o : Op K V) (m : RotatingMap K V)
      → IsValid m
      → size (run_op o m).0 + removed o m ≡ size m + added o m
  size-run_op (puts k v) m h = omega (arith, size-put k v m h)
  size-run_op (gets k) m h = unfold run_op in omega arith
  size-run_op (pops k) m h =
      unfold run_op pop in
      ground
        (arith, pop-size k (shard_for k m), size-with_shard k (shard_pop k (shard_for k m)).1 m h)
  size-run_op (gets_or_creates k factory) m h =
      unfold run_op get_or_create in
      ground (
        arith,
        get_or_create-size k factory (shard_for k m),
        size-with_shard k (shard_get_or_create k factory (shard_for k m)).1 m h,
      )
  size-run_op (rotates_at i) m h =
      unfold run_op rotate_at size in
      omega (arith, sum_sizes-rotate m.min_capacity m.shards i h.each)
