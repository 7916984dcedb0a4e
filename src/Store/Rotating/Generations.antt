-- ===== src/Store/Rotating/Generations.antt =====
-- runtime/store/rotatingmap.hpp: one shard against a map without generations.
use cppservicelib.Prelude.{
  ℕ, max, ◌*◌, ◌+◌, ◌≤◌, ◌<◌, ◌≡◌, refl, ◌⊎◌, inl, inr, true, false, [], Option, none, some,
  if◌then◌else◌, is_some, or_else, length, Bool-cases, arith, ltb, lt→ltb,
}
use cppservicelib.Dict.{Key, find, emplace, merge, Unique}
use cppservicelib.Dict.Laws.{
  find_congr, find-emplace, find-erase, find-merge, emplace-Unique, erase-Unique, merge-Unique,
  length-emplace, length-erase, length-merge, Apart,
}
use cppservicelib.Store.{ok, err, duplicate_key}
use cppservicelib.Store.Rotating.{
  Shard, empty_shard, shard_get, shard_set, shard_get_or_create, shard_pop, shard_size,
  rotate_shard, should_rotate,
}

due_when : (mark total : ℕ) → (mark ≡ 0) ⊎ (4 * total < mark) → should_rotate mark total ≡ true
unfolding should_rotate
due_when mark total h = ground arith

not_due_when : (mark total : ℕ) → 0 < mark → mark ≤ 4 * total → should_rotate mark total ≡ false
unfolding should_rotate
not_due_when mark total h k = ground arith

raised : (mark total : ℕ) → (if ltb mark total then total else mark) ≡ max mark total
raised mark total = ground arith

ltb-false : (a b : ℕ) → b ≤ a → ltb a b ≡ false
ltb-false a b h = ground arith

module _ {ℓ} {K V : Type ℓ} ⦃key : Key K⦄ where
  -- Each generation has a key once, and no key is in both.
  pub record ShardIsValid (s : Shard K V) : Type ℓ where
    pub current_once : Unique s.current
    pub previous_once : Unique s.previous
    pub apart : Apart s.current s.previous

  -- The entries of the shard with the generations forgotten.
  abbrev pub shard_view : Shard K V → K → Option V
  shard_view s q = or_else (find q s.current) (find q s.previous)

  pub empty_shard-IsValid : ShardIsValid empty_shard
  unfolding find
  empty_shard-IsValid = record { current_once = tt; previous_once = tt; apart = λ q. inl refl }

  pub shard_get-view : (q : K) (s : Shard K V) → shard_get q s ≡ shard_view s q
  unfolding shard_get
  shard_get-view q s = ground arith

  pub set-IsValid :
      (k : K) (v : V) (s : Shard K V) {t : Shard K V}
      → ShardIsValid s
      → shard_set k v s ≡ ok t
      → ShardIsValid t
  unfolding shard_set
  set-IsValid k v s {t} h e = record {
    current_once = ground (arith, emplace-Unique k v s.current h.current_once);
    previous_once = ground arith;
    apart = λ q. ground (arith, h.apart q, find-emplace q k v s.current, find_congr q k s.previous);
  }

  pub set-refuses :
      (k : K) (v : V) (s : Shard K V)
      → is_some (shard_view s k) ≡ true
      → shard_set k v s ≡ err duplicate_key
  unfolding shard_set
  set-refuses k v s h = ground arith

  pub set-view :
      (k : K) (v : V) (s : Shard K V)
      → shard_view s k ≡ none
      → (t : Shard K V) × (shard_set k v s ≡ ok t)
        × ((q : K) → shard_view t q ≡ (if key.same q k then some v else shard_view s q))
        × (shard_size t ≡ shard_size s + 1)
  unfolding shard_set
  set-view k v s h = (
    record s { current = emplace k v s.current },
    ground arith,
    λ q.
        ground (
          arith,
          find-emplace q k v s.current,
          find_congr q k s.current,
          find_congr q k s.previous,
        ),
    ground (arith, length-emplace k v s.current),
  )

  pub get_or_create-view :
      (k : K) (factory : Option V) (s : Shard K V) (q : K)
      → shard_view (shard_get_or_create k factory s).1 q
        ≡ (if key.same q k then or_else (shard_view s k) factory else shard_view s q)
  unfolding shard_get_or_create
  get_or_create-view k none s q =
      ground (arith, find_congr q k s.current, find_congr q k s.previous)
  get_or_create-view k (some v) s q =
      ground
        (arith, find-emplace q k v s.current, find_congr q k s.current, find_congr q k s.previous)

  pub get_or_create-IsValid :
      (k : K) (factory : Option V) (s : Shard K V)
      → ShardIsValid s
      → ShardIsValid (shard_get_or_create k factory s).1
  unfolding shard_get_or_create
  get_or_create-IsValid k none s h = record {
    current_once = ground arith;
    previous_once = ground arith;
    apart = λ q. ground (arith, h.apart q);
  }
  get_or_create-IsValid k (some v) s h = record {
    current_once = ground (arith, emplace-Unique k v s.current h.current_once);
    previous_once = ground arith;
    apart = λ q. ground (arith, h.apart q, find-emplace q k v s.current, find_congr q k s.previous);
  }

  pub pop-view :
      (k : K) (s : Shard K V) (q : K)
      → ShardIsValid s
      → shard_view (shard_pop k s).1 q ≡ (if key.same q k then none else shard_view s q)
  unfolding shard_pop
  pop-view k s q h = ground (
    arith,
    find-erase q k s.current h.current_once,
    find-erase q k s.previous h.previous_once,
    find_congr q k s.current,
    find_congr q k s.previous,
    h.apart k,
  )

  pub pop-value : (k : K) (s : Shard K V) → (shard_pop k s).0 ≡ shard_view s k
  unfolding shard_pop
  pop-value k s = ground arith

  pub pop-size :
      (k : K) (s : Shard K V)
      → shard_size (shard_pop k s).1 + (if is_some (shard_view s k) then 1 else 0) ≡ shard_size s
  unfolding shard_pop
  pop-size k s = ground (arith, length-erase k s.current, length-erase k s.previous)

  pub pop-IsValid : (k : K) (s : Shard K V) → ShardIsValid s → ShardIsValid (shard_pop k s).1
  unfolding shard_pop
  pop-IsValid k s h = record {
    current_once = ground (arith, erase-Unique k s.current h.current_once);
    previous_once = ground (arith, erase-Unique k s.previous h.previous_once);
    apart = λ q. ground (
      arith,
      h.apart q,
      find-erase q k s.current h.current_once,
      find-erase q k s.previous h.previous_once,
    );
  }

  -- The two generations of a shard in one map.
  merged-view :
      (s : Shard K V) (q : K) → find q (merge (merge [] s.current) s.previous) ≡ shard_view s q
  unfolding find
  merged-view s q =
      rw (find-merge q (merge [] s.current) s.previous, find-merge q [] s.current) refl

  merged-size :
      (s : Shard K V)
      → ShardIsValid s
      → length (merge (merge [] s.current) s.previous) ≡ shard_size s
  unfolding find
  merged-size s h = omega (
    arith,
    length-merge [] s.current h.current_once (λ q. inl refl),
    length-merge (merge [] s.current) s.previous h.previous_once
        (λ q. rw (find-merge q [] s.current) (h.apart q)),
  )

  pub rotate-view :
      (n : ℕ) (s : Shard K V) (q : K) → shard_view (rotate_shard n s) q ≡ shard_view s q
  unfolding rotate_shard find
  rotate-view n s q = ground (arith, merged-view s q)

  pub rotate-size :
      (n : ℕ) (s : Shard K V) → ShardIsValid s → shard_size (rotate_shard n s) ≡ shard_size s
  unfolding rotate_shard
  rotate-size n s h = ground (arith, merged-size s h)

  pub rotate-IsValid : (n : ℕ) (s : Shard K V) → ShardIsValid s → ShardIsValid (rotate_shard n s)
  unfolding rotate_shard find
  rotate-IsValid n s h = record {
    current_once = ground arith;
    previous_once =
        ground (arith, merge-Unique (merge [] s.current) s.previous (merge-Unique [] s.current tt));
    apart = λ q. ground (arith, h.apart q);
  }

  rotate_policy :
      (n : ℕ) (s : Shard K V)
      → let t = rotate_shard n s in
        let total = shard_size s in
        let mark = max s.high_water_mark total in
        ((s.high_water_mark ≡ 0) ⊎ (4 * total < s.high_water_mark)
          → n ≤ mark
          → (t.current ≡ []) × (t.high_water_mark ≡ total))
        × (mark < n ⊎ ((0 < s.high_water_mark) × (s.high_water_mark ≤ 4 * total))
            → (t.current ≡ s.current) × (t.previous ≡ s.previous) × (t.high_water_mark ≡ mark))
  unfolding rotate_shard
  rotate_policy n s =
      let mark = s.high_water_mark in
      let total = shard_size s in
      (
        λ due large.
            rw (raised mark total, ltb-false _ _ large, due_when mark total due) (refl, refl),
        elim [
          | inl small ↦ rw (raised mark total, lt→ltb _ _ small) (refl, refl, refl)
          | inr (used, many) ↦ elim (Bool-cases (ltb (max mark total) n)) [
            | inl small ↦ rw (raised mark total, small) (refl, refl, refl)
            | inr large ↦
                rw (raised mark total, large, not_due_when mark total used many) (refl, refl, refl)
          ]
        ],
      )

  -- The generations move on the first pass, and when fewer than a quarter of the high-water mark is
  -- left, provided that the mark, raised to what there is, has reached the minimum capacity: the
  -- current generation is then empty and the mark is what is left.
  pub rotate_moves :
      (n : ℕ) (s : Shard K V)
      → (s.high_water_mark ≡ 0) ⊎ (4 * shard_size s < s.high_water_mark)
      → n ≤ max s.high_water_mark (shard_size s)
      → ((rotate_shard n s).current ≡ []) × ((rotate_shard n s).high_water_mark ≡ shard_size s)
  rotate_moves n s due large = (rotate_policy n s).0 due large

  -- Below the minimum capacity, and while at least a quarter of a mark above zero is left, a pass
  -- leaves the generations alone and only raises the mark.
  pub rotate_keeps :
      (n : ℕ) (s : Shard K V)
      → (max s.high_water_mark (shard_size s) < n)
        ⊎ ((0 < s.high_water_mark) × (s.high_water_mark ≤ 4 * shard_size s))
      → ((rotate_shard n s).current ≡ s.current)
        × ((rotate_shard n s).previous ≡ s.previous)
        × ((rotate_shard n s).high_water_mark ≡ max s.high_water_mark (shard_size s))
  rotate_keeps n s stays = (rotate_policy n s).1 stays

  pub get_or_create-size :
      (k : K) (factory : Option V) (s : Shard K V)
      → shard_size (shard_get_or_create k factory s).1
        ≡ shard_size s + (if is_some (shard_view s k) then 0 else if is_some factory then 1 else 0)
  unfolding shard_get_or_create
  get_or_create-size k none s = ground arith
  get_or_create-size k (some v) s = ground (arith, length-emplace k v s.current)
