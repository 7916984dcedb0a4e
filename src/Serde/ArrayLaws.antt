-- ===== src/Serde/ArrayLaws.antt =====
-- runtime/serde/serdeimpl.hpp: arrays of strings, of framed elements and of elements of one size.
use cppservicelib.Prelude.{
  ℕ, ◌+◌, ◌-◌, ◌*◌, ◌/◌, ◌≤◌, ◌<◌, ◌≡◌, refl, ap, subst, ◌∙◌, false, List, [], ◌∷◌, ◌++◌, ltb,
  length, length-append, append-nil, append_assoc, All, arith,
}
use native.Mathlib.Nat.{mul-div_cancel}
use cppservicelib.Serde.{
  SerdeData, Result, ok, SerdeLimits, size_max, u64_bytes, put_size, put_u64_be, Reader, Serde,
}
use cppservicelib.Serde.Words.{at_offset, read-append, read_size-append, set_u64_be-append}
use cppservicelib.Serde.Laws.{IsFaithful, open_reader-ok}
use cppservicelib.Serde.Sequences.{
  read_all, write_array, read_array, read_fixed, read_fixed_array, fixed_array_serde, write_framed,
  read_framed, array_serde, string_array_serde,
}
use cppservicelib.Serde.SequenceLaws.{
  IsElement, sized_bytes, sized-IsElement, all_bytes, write_all-append, read_all-append,
}

abbrev pub array_bytes : {A : Type 0} → (A → SerdeData) → List A → SerdeData
array_bytes bytes vs = u64_bytes (length vs) ++ all_bytes bytes vs

-- The counts and the sizes that the limits of a serde allow for an array.
abbrev pub FitsArray : {A : Type 0} → SerdeLimits → (A → Type 0) → (A → SerdeData) → List A → Type 0
FitsArray limits Fits bytes vs =
    (length vs ≤ limits.max_container_elements)
    × (length (array_bytes bytes vs) ≤ limits.max_total_bytes)
    × All Fits vs

-- An element behind its header.
abbrev pub framed_bytes : {A : Type 0} → (A → SerdeData) → A → SerdeData
framed_bytes bytes v = sized_bytes (bytes v)

abbrev pub FitsFramed : {A : Type 0} → SerdeLimits → (A → Type 0) → (A → SerdeData) → A → Type 0
FitsFramed limits Fits bytes v = Fits v × (length (bytes v) ≤ limits.max_total_bytes)

module _ (limits : SerdeLimits) (elements : limits.max_container_elements ≤ size_max) where
  module _ {A : Type 0} {write : SerdeData → A → Result SerdeData}
      {next : Reader → Result (A × Reader)} {room : ℕ} {Fits : A → Type 0} {bytes : A → SerdeData}
      (law : IsElement write next room Fits bytes) where
    array_writes :
        (output : SerdeData) (vs : List A)
        → FitsArray limits Fits bytes vs
        → length output + length (array_bytes bytes vs) ≤ room
        → write_array limits write output vs ≡ ok (output ++ array_bytes bytes vs)
    unfolding write_array put_size
    array_writes output vs f h =
        let few : ltb limits.max_container_elements (length vs) ≡ false = ground (arith, f.0) in
        rw few (
          write_all-append law (output ++ u64_bytes (length vs)) vs f.2
            (omega (arith, length-append output (u64_bytes (length vs))))
          ∙ ap ok (append_assoc output (u64_bytes (length vs)) (all_bytes bytes vs)))

    read_all_whole :
        (vs : List A) (o : ℕ)
        → All Fits vs
        → read_all next (length vs) (at_offset (all_bytes bytes vs) o)
          ≡ ok (vs, at_offset [] (o + length (all_bytes bytes vs)))
    read_all_whole vs o f =
        subst
          (λ xs.
            read_all next (length vs) (at_offset xs o)
            ≡ ok (vs, at_offset [] (o + length (all_bytes bytes vs))))
          (append-nil (all_bytes bytes vs)) (read_all-append law vs [] o f)

    array_reads :
        (vs : List A)
        → FitsArray limits Fits bytes vs
        → read_array limits next (array_bytes bytes vs) ≡ ok vs
    unfolding read_array
    array_reads vs f =
        rw
          (
            open_reader-ok (array_bytes bytes vs) limits.max_total_bytes f.1,
            read_size-append limits.max_container_elements (length vs) (all_bytes bytes vs) 0
                (omega (arith, f.0)) f.0,
            read_all_whole vs 8 f.2,
          )
          refl

  -- An array of strings.
  pub string_array-IsFaithful :
      (room : ℕ)
      → room ≤ size_max
      → IsFaithful
          (string_array_serde room limits)
          room
          (FitsArray limits
            (λ v. (length v ≤ limits.max_string_bytes) × (length v ≤ size_max))
            sized_bytes)
          (array_bytes sized_bytes)
  string_array-IsFaithful room small =
      let law = sized-IsElement room limits.max_string_bytes small in
      record { writes = array_writes law; reads = array_reads law }

  module _ {A : Type 0} {s : Serde A} {room : ℕ} {Fits : A → Type 0} {bytes : A → SerdeData}
      (law : IsFaithful s room Fits bytes) where
    -- Elements of one size, without headers.
    fixed-IsElement :
        (size : ℕ)
        → ((v : A) → Fits v → length (bytes v) ≡ size)
        → IsElement s.serialize_to (read_fixed s size) room Fits bytes
    fixed-IsElement size same = record {
      puts = IsFaithful.writes law;
      gets = λ v rest o f. gets v rest o f;
    }
      where
        gets :
            (v : A) (rest : SerdeData) (o : ℕ)
            → Fits v
            → read_fixed s size (at_offset (bytes v ++ rest) o)
              ≡ ok (v, at_offset rest (o + length (bytes v)))
        gets v rest o f =
            unfold read_fixed in
            rw (← same v f, read-append (bytes v) rest o, IsFaithful.reads law v f) refl

    length-all_bytes :
        (size : ℕ)
        → ((v : A) → Fits v → length (bytes v) ≡ size)
        → (vs : List A) → All Fits vs
        → length (all_bytes bytes vs) ≡ length vs * size
    length-all_bytes size same [] f = grind arith
    length-all_bytes size same (v ∷ vs) f =
        let rest = length-all_bytes size same vs f.1 in
        let first = same v f.0 in
        let split = length-append (bytes v) (all_bytes bytes vs) in grind arith

    fixed_reads :
        (size : ℕ)
        → 0 < size
        → ((v : A) → Fits v → length (bytes v) ≡ size)
        → (vs : List A) → FitsArray limits Fits bytes vs
        → read_fixed_array limits s size (array_bytes bytes vs) ≡ ok vs
    unfolding read_fixed_array
    fixed_reads size positive same vs f =
        let exact : length (all_bytes bytes vs) / size ≡ length vs =
          ap (λ n. n / size) (length-all_bytes size same vs f.2)
          ∙ mul-div_cancel (length vs) positive in
        let enough : ltb (length (all_bytes bytes vs) / size) (length vs) ≡ false =
          ground (arith, exact) in
        rw
          (
            open_reader-ok (array_bytes bytes vs) limits.max_total_bytes f.1,
            read_size-append limits.max_container_elements (length vs) (all_bytes bytes vs) 0
                (omega (arith, f.0)) f.0,
            enough,
            read_all_whole (fixed-IsElement size same) vs 8 f.2,
          )
          refl

    -- An array whose elements all take the same number of bytes.
    pub fixed_array-IsFaithful :
        (size : ℕ)
        → 0 < size
        → ((v : A) → Fits v → length (bytes v) ≡ size)
        → IsFaithful
            (fixed_array_serde limits s size)
            room
            (FitsArray limits Fits bytes)
            (array_bytes bytes)
    fixed_array-IsFaithful size positive same = record {
      writes = array_writes (fixed-IsElement size same);
      reads = fixed_reads size positive same;
    }

    pub framed-IsElement :
        limits.max_total_bytes ≤ size_max
        → IsElement
            (write_framed s)
            (read_framed limits s)
            room
            (FitsFramed limits Fits bytes)
            (framed_bytes bytes)
    framed-IsElement total = record { puts = puts; gets = gets }
      where
        puts :
            (output : SerdeData) (v : A)
            → FitsFramed limits Fits bytes v
            → length output + length (framed_bytes bytes v) ≤ room
            → write_framed s output v ≡ ok (output ++ framed_bytes bytes v)
        puts output v f h =
            unfold write_framed put_u64_be in
            let header = output ++ u64_bytes 0 in
            let size = length-append output (u64_bytes 0) in
            let payload : length (output ++ (u64_bytes 0 ++ bytes v))
                  - length (output ++ u64_bytes 0)
                ≡ length (bytes v) =
              omega (arith, size, length-append output (u64_bytes 0 ++ bytes v)) in
            rw
              (
                IsFaithful.writes law header v f.0 (omega (arith, size)),
                append_assoc output (u64_bytes 0) (bytes v),
                payload,
              )
              (set_u64_be-append output (bytes v) 0 (length (bytes v)))

        gets :
            (v : A) (rest : SerdeData) (o : ℕ)
            → FitsFramed limits Fits bytes v
            → read_framed limits s (at_offset (framed_bytes bytes v ++ rest) o)
              ≡ ok (v, at_offset rest (o + length (framed_bytes bytes v)))
        gets v rest o f =
            unfold read_framed in
            let place : o + 8 + length (bytes v) ≡ o + length (framed_bytes bytes v) =
              omega arith in
            rw
              (
                read_size-append limits.max_total_bytes (length (bytes v)) (bytes v ++ rest) o
                    (omega (arith, f.1)) f.1,
                read-append (bytes v) rest (o + 8),
                IsFaithful.reads law v f.0,
              )
              (ap (λ n. ok (v, at_offset rest n)) place)

    -- An array of elements of any size, each behind a header that is written after it.
    pub array-IsFaithful :
        limits.max_total_bytes ≤ size_max
        → IsFaithful
            (array_serde limits s)
            room
            (FitsArray limits (FitsFramed limits Fits bytes) (framed_bytes bytes))
            (array_bytes (framed_bytes bytes))
    array-IsFaithful total = record {
      writes = array_writes (framed-IsElement total);
      reads = array_reads (framed-IsElement total);
    }
