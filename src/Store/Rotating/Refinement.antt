-- ===== src/Store/Rotating/Refinement.antt =====
-- runtime/store/rotatingmap.hpp: the sharded map against a plain map, under any sequence of calls
-- and rotations.
use mathlib.Core.Path.{fun_ext}
use cppservicelib.Prelude.{
  ℕ, ◌<◌, ◌≡◌, refl, sym, ap, ◌∙◌, inl, inr, Bool, true, false, List, [], ◌∷◌, Option, none, some,
  if◌then◌else◌, or_else, length, length-set, get_or-set, get_or-modify, get_or, replicate,
  Option-cases, Bool-cases, arith, ◌==◌, ℤ, is_positive, ==_refl, ==_eq, get_or-replicate,
}
use cppservicelib.Dict.{Key, find}
use cppservicelib.Dict.Laws.{find_congr}
use cppservicelib.Store.{Error, Result, ok, err, duplicate_key, factory_threw}
use cppservicelib.Store.Rotating.{
  Shard, RotatingMap, shard_count, empty_shard, shard_set, shard_get_or_create, rotate_shard, make,
  fresh, shard_index, shard_for, with_shard, put, get, get_or_create, pop, rotate_at,
}
use cppservicelib.Store.Rotating.Generations.{
  ShardIsValid, shard_view, empty_shard-IsValid, shard_get-view, set-IsValid, set-refuses, set-view,
  get_or_create-view, get_or_create-IsValid, pop-view, pop-value, pop-IsValid, rotate-view,
  rotate-IsValid,
}

pub data Op {ℓ} (K V : Type ℓ) : Type ℓ where
  puts : K → V → Op K V
  gets pops : K → Op K V
  gets_or_creates : K → Option V → Op K V
  rotates_at : ℕ → Op K V

pub data Out {ℓ} (V : Type ℓ) : Type ℓ where
  done : Out V
  refused : Error → Out V
  found : Option V → Out V
  made : V → Bool → Out V

abbrev of_made {ℓ} : {V : Type ℓ} → Result (V × Bool) → Out V
of_made (ok (v, loaded)) = made v loaded
of_made (err e) = refused e

module _ {ℓ} {K V : Type ℓ} ⦃key : Key K⦄ where
  pub record IsValid (m : RotatingMap K V) : Type ℓ where
    pub sharded : length m.shards ≡ shard_count
    pub each : (i : ℕ) → ShardIsValid (get_or m.shards i empty_shard)

  -- The map of all shards.
  abbrev pub view : RotatingMap K V → K → Option V
  view m q = shard_view (shard_for q m) q

  abbrev pub update : (K → Option V) → K → Option V → K → Option V
  update f k o q = if key.same q k then o else f q

  -- The third argument is what the map has for the key.
  abbrev spec_put : (K → Option V) → K → V → Option V → (K → Option V) × Out V
  spec_put f k v (some w) = (f, refused duplicate_key)
  spec_put f k v none = (update f k (some v), done)

  abbrev spec_make : (K → Option V) → K → Option V → Option V → (K → Option V) × Out V
  spec_make f k factory (some v) = (f, made v true)
  spec_make f k (some v) none = (update f k (some v), made v false)
  spec_make f k none none = (f, refused factory_threw)

  -- The promise to the caller, over a map with no shards, generations or rotation.
  abbrev pub spec : Op K V → (K → Option V) → (K → Option V) × Out V
  spec (puts k v) f = spec_put f k v (f k)
  spec (gets k) f = (f, found (f k))
  spec (pops k) f = (update f k none, found (f k))
  spec (gets_or_creates k factory) f = spec_make f k factory (f k)
  spec (rotates_at i) f = (f, done)

  abbrev of_put : RotatingMap K V → Result (RotatingMap K V) → RotatingMap K V × Out V
  of_put m (ok n) = (n, done)
  of_put m (err e) = (m, refused e)

  -- One call of the code.
  unfoldable pub run_op : Op K V → RotatingMap K V → RotatingMap K V × Out V
  run_op (puts k v) m = of_put m (put k v m)
  run_op (gets k) m = (m, found (get k m))
  run_op (pops k) m = let (r, n) = pop k m in (n, found r)
  run_op (gets_or_creates k factory) m = let (r, n) = get_or_create k factory m in (n, of_made r)
  run_op (rotates_at i) m = (rotate_at i m, done)

  pub index-lt : (k : K) (m : RotatingMap K V) → IsValid m → shard_index k m < length m.shards
  unfolding shard_index
  index-lt k m h = rw h.sharded (omega arith)

  index-same :
      (q k : K) (m : RotatingMap K V) → key.same q k ≡ true → shard_index q m ≡ shard_index k m
  unfolding shard_index
  index-same q k m e = rw (key.hash-same q k e) refl

  with_shard-IsValid :
      (k : K) (s : Shard K V) (m : RotatingMap K V)
      → IsValid m
      → ShardIsValid s
      → IsValid (with_shard k s m)
  unfolding with_shard
  with_shard-IsValid k s m h hs = record {
    sharded = length-set m.shards (shard_index k m) s ∙ h.sharded;
    each = λ i.
        rw (get_or-set m.shards (shard_index k m) i s empty_shard (index-lt k m h))
          (elim (Bool-cases (shard_index k m == i)) [ inl e ↦ rw e hs | inr e ↦ rw e (h.each i) ]);
  }

  shard_for-with_shard :
      (k q : K) (s : Shard K V) (m : RotatingMap K V)
      → IsValid m
      → shard_for q (with_shard k s m)
        ≡ (if shard_index k m == shard_index q m then s else shard_for q m)
  unfolding with_shard shard_for
  shard_for-with_shard k q s m h =
      rw (length-set m.shards (shard_index k m) s)
        (get_or-set m.shards (shard_index k m) (shard_index q m) s empty_shard (index-lt k m h))

  shard_for-index :
      (k q : K) (m : RotatingMap K V)
      → (shard_index k m == shard_index q m) ≡ true
      → shard_for k m ≡ shard_for q m
  unfolding shard_for
  shard_for-index k q m e = ap (λ i. get_or m.shards i empty_shard) (==_eq _ _ e)

  -- The map after one shard was rewritten, and `o` is what it has for `k` now.
  view-with_shard :
      (k : K) (s : Shard K V) (m : RotatingMap K V) (o : Option V)
      → IsValid m
      → ((q : K) → shard_view s q ≡ (if key.same q k then o else shard_view (shard_for k m) q))
      → (q : K) → view (with_shard k s m) q ≡ update (view m) k o q
  view-with_shard k s m o h hs q =
      rw (shard_for-with_shard k q s m h) (elim (Bool-cases (shard_index k m == shard_index q m)) [
        | inl e ↦ rw e (rw (← shard_for-index k q m e) (hs q))
        | inr e ↦ elim (Bool-cases (key.same q k)) [
          | inl same ↦ absurd (false_same e (index-same q k m same))
          | inr other ↦ rw (e, other) refl
        ]
      ])
    where
      false_same :
          (shard_index k m == shard_index q m) ≡ false → shard_index q m ≡ shard_index k m → ⊥
      false_same e p = ground arith

  -- Keys that are equal have one entry.
  view_congr : (q k : K) (m : RotatingMap K V) → key.same q k ≡ true → view m q ≡ view m k
  view_congr q k m e =
      rw
        (
          shard_for-index q k m (rw (index-same q k m e) (==_refl _)),
          find_congr q k (shard_for k m).current e,
          find_congr q k (shard_for k m).previous e,
        )
        refl

  update_same : (k q : K) (m : RotatingMap K V) → update (view m) k (view m k) q ≡ view m q
  update_same k q m = elim (Bool-cases (key.same q k)) [
    | inl e ↦ rw e (sym (view_congr q k m e))
    | inr e ↦ rw e refl
  ]

  pub each_for : (k : K) (m : RotatingMap K V) → IsValid m → ShardIsValid (shard_for k m)
  unfolding shard_for
  each_for k m h = h.each _

  -- What the code does, with its answer, against what was promised.
  pub record Refines (did : RotatingMap K V × Out V) (promised : (K → Option V) × Out V)
      : Type ℓ where
    pub valid : IsValid did.0
    pub output : did.1 ≡ promised.1
    pub entries : (q : K) → view did.0 q ≡ promised.0 q

  pub put_ok :
      (k : K) (v : V) (m : RotatingMap K V) {t : Shard K V}
      → shard_set k v (shard_for k m) ≡ ok t
      → put k v m ≡ ok (with_shard k t m)
  unfolding put
  put_ok k v m e = rw (e, put) refl

  pub put_err :
      (k : K) (v : V) (m : RotatingMap K V) {e : Error}
      → shard_set k v (shard_for k m) ≡ err e
      → put k v m ≡ err e
  unfolding put
  put_err k v m e = rw (e, put) refl

  put-Refines :
      (k : K) (v : V) (m : RotatingMap K V)
      → IsValid m
      → Refines (run_op (puts k v) m) (spec (puts k v) (view m))
  unfolding run_op
  put-Refines k v m h = elim (Option-cases (view m k)) [
    | inl free ↦
        let (t, e, entries, _) = set-view k v (shard_for k m) free in
        rw (put_ok k v m e, free)
          (record {
            valid = with_shard-IsValid k t m h (set-IsValid k v (shard_for k m) (each_for k m h) e);
            output = refl;
            entries = view-with_shard k t m (some v) h entries;
          })
    | inr (w, held) ↦
        rw (put_err k v m (set-refuses k v (shard_for k m) (rw held refl)), held)
          (record { valid = h; output = refl; entries = λ q. refl })
  ]

  pop-Refines :
      (k : K) (m : RotatingMap K V)
      → IsValid m
      → Refines (run_op (pops k) m) (spec (pops k) (view m))
  unfolding run_op pop
  pop-Refines k m h = record {
    valid = with_shard-IsValid k _ m h (pop-IsValid k (shard_for k m) (each_for k m h));
    output = ap found (pop-value k (shard_for k m));
    entries = view-with_shard k _ m none h (λ q. pop-view k (shard_for k m) q (each_for k m h));
  }

  made-output :
      (k : K) (factory : Option V) (s : Shard K V) (f : K → Option V)
      → of_made (shard_get_or_create k factory s).0 ≡ (spec_make f k factory (shard_view s k)).1
  unfolding shard_get_or_create
  made-output k none s f = ground arith
  made-output k (some v) s f = ground arith

  made-entries :
      (k : K) (factory : Option V) (m : RotatingMap K V) (held : Option V) (q : K)
      → view m k ≡ held
      → update (view m) k (or_else held factory) q ≡ (spec_make (view m) k factory held).0 q
  made-entries k factory m (some w) q e = rw (← e) (update_same k q m)
  made-entries k none m none q e = rw (← e) (update_same k q m)
  made-entries k (some v) m none q e = refl

  get_or_create-Refines :
      (k : K) (factory : Option V) (m : RotatingMap K V)
      → IsValid m
      → Refines (run_op (gets_or_creates k factory) m) (spec (gets_or_creates k factory) (view m))
  unfolding run_op get_or_create
  get_or_create-Refines k factory m h = record {
    valid =
        with_shard-IsValid k _ m h
          (get_or_create-IsValid k factory (shard_for k m) (each_for k m h));
    output = made-output k factory (shard_for k m) (view m);
    entries = λ q.
        view-with_shard k _ m (or_else (view m k) factory) h
          (λ p. get_or_create-view k factory (shard_for k m) p) q
        ∙ made-entries k factory m (view m k) q refl;
  }

  rotate_at-Refines :
      (i : ℕ) (m : RotatingMap K V)
      → IsValid m
      → Refines (run_op (rotates_at i) m) (spec (rotates_at i) (view m))
  unfolding run_op rotate_at shard_for
  rotate_at-Refines i m h = record {
    valid = record {
      sharded = length-set m.shards i _ ∙ h.sharded;
      each = λ j.
          get_or-modify ShardIsValid (rotate_shard m.min_capacity) empty_shard
            (rotate-IsValid m.min_capacity) m.shards i j (h.each j);
    };
    output = refl;
    entries = λ q.
        rw (length-set m.shards i (rotate_shard m.min_capacity (get_or m.shards i empty_shard))) (
          get_or-modify (λ s. shard_view s q ≡ view m q) (rotate_shard m.min_capacity) empty_shard
            (λ s e. rotate-view m.min_capacity s q ∙ e) m.shards i (shard_index q m) refl);
  }

  -- Every call of the map, and every turn of the rotation between two calls, keeps the map valid,
  -- answers what a plain map answers, and leaves the entries that a plain map has.
  pub run_op-Refines :
      (o : Op K V) (m : RotatingMap K V) → IsValid m → Refines (run_op o m) (spec o (view m))
  run_op-Refines (puts k v) m h = put-Refines k v m h
  run_op-Refines (gets k) m h =
      unfold run_op get in
      record {
        valid = h;
        output = ap found (shard_get-view k (shard_for k m));
        entries = λ q. refl;
      }
  run_op-Refines (pops k) m h = pop-Refines k m h
  run_op-Refines (gets_or_creates k factory) m h = get_or_create-Refines k factory m h
  run_op-Refines (rotates_at i) m h = rotate_at-Refines i m h

  pub run : List (Op K V) → RotatingMap K V → List (Out V) × RotatingMap K V
  run [] m = ([], m)
  run (o ∷ os) m = let (n, out) = run_op o m in let (outs, last) = run os n in (out ∷ outs, last)

  pub spec_run : List (Op K V) → (K → Option V) → List (Out V) × (K → Option V)
  spec_run [] f = ([], f)
  spec_run (o ∷ os) f =
      let (g, out) = spec o f in let (outs, last) = spec_run os g in (out ∷ outs, last)

  run-Refines :
      (os : List (Op K V)) (m : RotatingMap K V)
      → IsValid m
      → ((run os m).0 ≡ (spec_run os (view m)).0) × (view (run os m).1 ≡ (spec_run os (view m)).1)
  unfolding run spec_run
  run-Refines [] m h = (refl, refl)
  run-Refines (o ∷ os) m h =
      let r = run_op-Refines o m h in
      let (outs, last) = run-Refines os (run_op o m).0 r.valid in
      let e : view (run_op o m).0 ≡ (spec o (view m)).0 = fun_ext r.entries in
      (rw (← e, r.output) (ap (◌∷◌ (spec o (view m)).1) outs), rw (← e) last)

  fresh_shard :
      (n i : ℕ) → get_or (replicate {A = Shard K V} n empty_shard) i empty_shard ≡ empty_shard
  fresh_shard n i = get_or-replicate n i empty_shard

  pub fresh-IsValid : (d : ℤ) (n : ℕ) → IsValid (fresh d n)
  fresh-IsValid d n = record {
    sharded = refl;
    each = λ i. rw (fresh_shard shard_count i) empty_shard-IsValid;
  }

  view-fresh : (d : ℤ) (n : ℕ) → view (fresh d n) ≡ λ q. none
  unfolding shard_for find
  view-fresh d n = fun_ext λ q. rw (fresh_shard shard_count (shard_index q (fresh d n))) refl

  -- A map that is made with a positive interval answers any sequence of calls, with rotations of
  -- any shards in between, as a map that is empty at first and never rotates; it ends with the
  -- same entries.
  pub run-eq-spec_run :
      (d : ℤ) (n : ℕ) (os : List (Op K V))
      → is_positive d ≡ true
      → (m : RotatingMap K V) × (make d n ≡ ok m)
        × ((run os m).0 ≡ (spec_run os (λ q. none)).0)
        × (view (run os m).1 ≡ (spec_run os (λ q. none)).1)
  unfolding make
  run-eq-spec_run d n os h =
      let (outs, last) = run-Refines os (fresh d n) (fresh-IsValid d n) in
      (fresh d n, rw h refl, rw (← view-fresh d n) outs, rw (← view-fresh d n) last)
