-- ===== src/Serde/Maps/Laws.antt =====
-- runtime/serde/serdeimpl.hpp: pairs are read back, and maps with the same entries.
use cppservicelib.Prelude.{
  ℕ, suc, ◌+◌, ◌≤◌, ◌≡◌, refl, ap, false, List, [], ◌∷◌, ◌++◌, ltb, ==_refl, or_else, length,
  length-append, append_assoc, arith,
}
use cppservicelib.Dict.{Key, Dict, find, assign, Unique}
use cppservicelib.Dict.Laws.{assign-Unique, find-assign, find_congr}
use cppservicelib.Serde.{SerdeData, ok, ◌>>=◌, SerdeLimits, size_max, Reader, Serde, u64_bytes}
use cppservicelib.Serde.Words.{at_offset}
use cppservicelib.Serde.Laws.{IsFaithful, open_reader-ok}
use cppservicelib.Serde.SequenceLaws.{IsElement, gets_whole}
use cppservicelib.Serde.ArrayLaws.{framed_bytes, framed-IsElement}
use cppservicelib.Serde.Maps.{
  write_pair, read_pair, key_value_serde, assign_all, keys_of, values_of, build_map, write_map,
  map_serde,
}

abbrev pub pair_bytes : {A B : Type 0} → (A → SerdeData) → (B → SerdeData) → A → B → SerdeData
pair_bytes bytes_a bytes_b a b = framed_bytes bytes_a a ++ framed_bytes bytes_b b

-- What the limits of a serde allow for a pair.
abbrev pub FitsPair :
    {A B : Type 0}
    → SerdeLimits
    → (A → Type 0)
    → (B → Type 0)
    → (A → SerdeData)
    → (B → SerdeData)
    → A
    → B
    → Type 0
FitsPair limits FitsA FitsB bytes_a bytes_b a b =
    FitsA a × FitsB b × (length (pair_bytes bytes_a bytes_b a b) ≤ limits.max_total_bytes)

module _ (limits : SerdeLimits) (elements : limits.max_container_elements ≤ size_max)
    (total : limits.max_total_bytes ≤ size_max) {A B : Type 0} {s : Serde A} {t : Serde B}
    {room : ℕ} {FitsA : A → Type 0} {FitsB : B → Type 0} {bytes_a : A → SerdeData}
    {bytes_b : B → SerdeData} (law_a : IsFaithful s room FitsA bytes_a)
    (law_b : IsFaithful t room FitsB bytes_b) where
  write_pair-ok :
      (output : SerdeData) (a : A) (b : B)
      → FitsPair limits FitsA FitsB bytes_a bytes_b a b
      → length output + length (pair_bytes bytes_a bytes_b a b) ≤ room
      → write_pair s t output a b ≡ ok (output ++ pair_bytes bytes_a bytes_b a b)
  unfolding write_pair
  write_pair-ok output a b f h =
      let first = u64_bytes (length (bytes_a a)) ++ bytes_a a in
      let second = u64_bytes (length (bytes_b b)) ++ bytes_b b in
      let size = length-append first second in
      rw
        (
          IsElement.puts (framed-IsElement limits elements law_a total) output a
              (f.0, omega (arith, f.2, size)) (omega (arith, size)),
          IsElement.puts (framed-IsElement limits elements law_b total) (output ++ first) b
              (f.1, omega (arith, f.2, size)) (omega (arith, size, length-append output first)),
        )
        (ap ok (append_assoc output first second))

  read_pair-ok :
      (a : A) (b : B)
      → FitsPair limits FitsA FitsB bytes_a bytes_b a b
      → read_pair limits s t (pair_bytes bytes_a bytes_b a b)
        ≡ ok (
          a,
          b,
          at_offset [] (
              0
              + length (u64_bytes (length (bytes_a a)) ++ bytes_a a)
              + length (u64_bytes (length (bytes_b b)) ++ bytes_b b)),
        )
  unfolding read_pair
  read_pair-ok a b f =
      let first = u64_bytes (length (bytes_a a)) ++ bytes_a a in
      let second = u64_bytes (length (bytes_b b)) ++ bytes_b b in
      let size = length-append first second in
      rw
        (
          open_reader-ok (pair_bytes bytes_a bytes_b a b) limits.max_total_bytes f.2,
          IsElement.gets (framed-IsElement limits elements law_a total) a second 0
              (f.0, omega (arith, f.2, size)),
          gets_whole (framed-IsElement limits elements law_b total) b (0 + length first)
              (f.1, omega (arith, f.2, size)),
        )
        refl

  -- For two faithful serdes, and limits that are sizes of 64 bits: a pair that fits the limits is
  -- written as two headers and payloads where there is room, and it is read back from these bytes, and
  -- also from what is written for its key and for its value alone.
  pub key_value_round_trip :
      (v : A × B)
      → FitsPair limits FitsA FitsB bytes_a bytes_b v.0 v.1
      → length (pair_bytes bytes_a bytes_b v.0 v.1) ≤ room
      → ((key_value_serde limits s t).serialize_pair v ≡ ok (pair_bytes bytes_a bytes_b v.0 v.1))
        × ((key_value_serde limits s t).deserialize_pair (pair_bytes bytes_a bytes_b v.0 v.1)
            ≡ ok v)
        × (((key_value_serde limits s t).serialize_key v >>= λ a.
              (key_value_serde limits s t).serialize_value v >>= λ b.
              (key_value_serde limits s t).deserialize_key_value a b)
            ≡ ok v)
  key_value_round_trip v f h =
      let size =
        length-append (u64_bytes (length (bytes_a v.0)) ++ bytes_a v.0)
          (u64_bytes (length (bytes_b v.1)) ++ bytes_b v.1) in
      (
        write_pair-ok [] v.0 v.1 f (omega arith),
        rw (read_pair-ok v.0 v.1 f) refl,
        rw
            (
              IsFaithful.writes law_a [] v.0 f.0 (omega (arith, size)),
              IsFaithful.writes law_b [] v.1 f.1 (omega (arith, size)),
              IsFaithful.reads law_a v.0 f.0,
              IsFaithful.reads law_b v.1 f.1,
            )
            refl,
      )

abbrev pub map_bytes :
    {K V : Type 0} → (List K → SerdeData) → (List V → SerdeData) → Dict K V → SerdeData
map_bytes bytes_a bytes_b m = pair_bytes bytes_a bytes_b (keys_of m) (values_of m)

-- The keys and the values fit their serdes, and the sizes fit the limits.
abbrev pub FitsMap :
    {K V : Type 0}
    → SerdeLimits
    → (List K → Type 0)
    → (List V → Type 0)
    → (List K → SerdeData)
    → (List V → SerdeData)
    → Dict K V
    → Type 0
FitsMap limits FitsA FitsB bytes_a bytes_b m =
    FitsPair limits FitsA FitsB bytes_a bytes_b (keys_of m) (values_of m)
    × (length m ≤ limits.max_container_elements)

module _ {K V : Type 0} ⦃key : Key K⦄ where
  find-assign_all :
      (q : K) (m d : Dict K V)
      → Unique m
      → Unique d
      → (find q (assign_all (keys_of m) (values_of m) d) ≡ or_else (find q m) (find q d))
        × Unique (assign_all (keys_of m) (values_of m) d)
  unfolding assign_all find
  find-assign_all q [] d u v = (refl, v)
  find-assign_all q (e ∷ m) d u v =
      let (rest, unique) = find-assign_all q m (assign e.0 e.1 d) u.1 (assign-Unique e.0 e.1 d v) in
      let here = find-assign q e.0 e.1 d v in
      let same = find_congr q e.0 m in (ground (arith, rest, here, same, u.0), unique)

  length-keys_of :
      (m : Dict K V) → (length (keys_of m) ≡ length m) × (length (values_of m) ≡ length m)
  length-keys_of [] = (refl, refl)
  length-keys_of (e ∷ m) = let (p, q) = length-keys_of m in (ap suc p, ap suc q)

  build_map-ok :
      (limits : SerdeLimits) (m : Dict K V) (r : Reader)
      → length m ≤ limits.max_container_elements
      → build_map limits (keys_of m) (values_of m) r ≡ ok (assign_all (keys_of m) (values_of m) [])
  unfolding build_map
  build_map-ok limits m r h =
      let (p, q) = length-keys_of m in
      let few : ltb limits.max_container_elements (length m) ≡ false = ground arith in
      rw (p, q, ==_refl (length m), few) refl

module _ (limits : SerdeLimits) (elements : limits.max_container_elements ≤ size_max)
    (total : limits.max_total_bytes ≤ size_max) {K V : Type 0} ⦃key : Key K⦄ {s : Serde (List K)}
    {t : Serde (List V)} {room : ℕ} {FitsA : List K → Type 0} {FitsB : List V → Type 0}
    {bytes_a : List K → SerdeData} {bytes_b : List V → SerdeData}
    (law_a : IsFaithful s room FitsA bytes_a) (law_b : IsFaithful t room FitsB bytes_b) where
  -- A map whose keys and values fit is written where there is room, and what is read back has the
  -- same value for every key, and each key once.
  pub map_round_trip :
      (output : SerdeData) (m : Dict K V)
      → Unique m
      → FitsMap limits FitsA FitsB bytes_a bytes_b m
      → length output + length (map_bytes bytes_a bytes_b m) ≤ room
      → (n : Dict K V) × ((map_serde limits s t).serialize_to output m
          ≡ ok (output ++ map_bytes bytes_a bytes_b m))
        × ((map_serde limits s t).deserialize (map_bytes bytes_a bytes_b m) ≡ ok n)
        × ((q : K) → find q n ≡ find q m)
        × Unique n
  unfolding write_map
  map_round_trip output m u f h =
      let few : ltb limits.max_container_elements (length m) ≡ false = ground (arith, f.1) in
      (
        assign_all (keys_of m) (values_of m) [],
        rw few (
            write_pair-ok limits elements total law_a law_b output (keys_of m) (values_of m) f.0 h),
        rw (read_pair-ok limits elements total law_a law_b (keys_of m) (values_of m) f.0)
            (build_map-ok limits m _ f.1),
        λ q. unfold find in ground (arith, (find-assign_all q m [] u tt).0),
        whole m u,
      )
    where
      whole : (m : Dict K V) → Unique m → Unique (assign_all (keys_of m) (values_of m) [])
      whole [] u = unfold assign_all in tt
      whole (e ∷ m) u = (find-assign_all e.0 (e ∷ m) [] u tt).1
