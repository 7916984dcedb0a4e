-- ===== src/Serde/SequenceLaws.antt =====
-- runtime/serde/serdeimpl.hpp: strings and arrays are read back as they were written.
use cppservicelib.Prelude.{
  ℕ, ◌+◌, ◌-◌, ◌≤◌, ◌≡◌, refl, sym, ap, subst, ◌∙◌, false, List, [], ◌∷◌, ◌++◌, ltb, length,
  length-append, append-nil, append_assoc, All, arith,
}
use cppservicelib.Serde.{
  SerdeData, Result, ok, ◌>>=◌, SerdeLimits, size_max, checked_add, reserve_more, u64_bytes,
  put_size, Reader, open_reader,
}
use cppservicelib.Serde.Words.{at_offset, read-append, read_size-append}
use cppservicelib.Serde.Laws.{IsFaithful, open_reader-ok}
use cppservicelib.Serde.Sequences.{
  write_sized, read_sized, string_serde, bytes_serde, write_all, read_all,
}

-- A writer of elements and a reader that stops behind each of them.
pub record IsElement {A : Type 0} (write : SerdeData → A → Result SerdeData)
    (next : Reader → Result (A × Reader)) (room : ℕ) (Fits : A → Type 0) (bytes : A → SerdeData)
    : Type 0 where
  pub puts :
      (output : SerdeData) (v : A)
      → Fits v
      → length output + length (bytes v) ≤ room
      → write output v ≡ ok (output ++ bytes v)
  pub gets :
      (v : A) (rest : SerdeData) (o : ℕ)
      → Fits v
      → next (at_offset (bytes v ++ rest) o) ≡ ok (v, at_offset rest (o + length (bytes v)))

abbrev pub sized_bytes : SerdeData → SerdeData
sized_bytes v = u64_bytes (length v) ++ v

checked_add-ok : (a b : ℕ) → a + b ≤ size_max → checked_add a b ≡ ok (a + b)
unfolding checked_add
checked_add-ok a b h = let e : ltb (size_max - a) b ≡ false = ground arith in rw e refl

reserve_more-ok :
    (room : ℕ) (output : SerdeData) (n : ℕ)
    → length output + n ≤ room
    → reserve_more room output n ≡ ok output
unfolding reserve_more
reserve_more-ok room output n h =
    let e : ltb (room - length output) n ≡ false = ground arith in rw e refl

pub sized-IsElement :
    (room limit : ℕ)
    → room ≤ size_max
    → IsElement
        (write_sized room limit)
        (read_sized limit)
        room
        (λ v. (length v ≤ limit) × (length v ≤ size_max))
        sized_bytes
sized-IsElement room limit small = record { puts = puts; gets = gets }
  where
    puts :
        (output v : SerdeData)
        → (length v ≤ limit) × (length v ≤ size_max)
        → length output + length (sized_bytes v) ≤ room
        → write_sized room limit output v ≡ ok (output ++ sized_bytes v)
    puts output v f h =
        unfold write_sized put_size in
        let e : ltb limit (length v) ≡ false = ground (arith, f.0) in
        let sum : checked_add 8 (length v) ≡ ok (8 + length v) =
          checked_add-ok 8 (length v) (omega arith) in
        rw (e, sum, reserve_more-ok room output (8 + length v) (omega arith))
          (ap ok (append_assoc output (u64_bytes (length v)) v))

    gets :
        (v rest : SerdeData) (o : ℕ)
        → (length v ≤ limit) × (length v ≤ size_max)
        → read_sized limit (at_offset (sized_bytes v ++ rest) o)
          ≡ ok (v, at_offset rest (o + length (sized_bytes v)))
    gets v rest o f =
        unfold read_sized in
        let place : o + 8 + length v ≡ o + length (sized_bytes v) = omega arith in
        rw (read_size-append limit (length v) (v ++ rest) o f.1 f.0, read-append v rest (o + 8))
          (ap (λ n. ok (v, at_offset rest n)) place)

abbrev pub FitsSized : ℕ → SerdeLimits → SerdeData → Type 0
FitsSized limit limits v = (length v ≤ limit) × (8 + length v ≤ limits.max_total_bytes)

-- The bytes of the elements, one after the other.
abbrev pub all_bytes : {A : Type 0} → (A → SerdeData) → List A → SerdeData
all_bytes bytes [] = []
all_bytes bytes (v ∷ vs) = bytes v ++ all_bytes bytes vs

module _ {A : Type 0} {write : SerdeData → A → Result SerdeData}
    {next : Reader → Result (A × Reader)} {room : ℕ} {Fits : A → Type 0} {bytes : A → SerdeData}
    (law : IsElement write next room Fits bytes) where
  pub gets_whole :
      (v : A) (o : ℕ)
      → Fits v
      → next (at_offset (bytes v) o) ≡ ok (v, at_offset [] (o + length (bytes v)))
  gets_whole v o f =
      subst (λ xs. next (at_offset xs o) ≡ ok (v, at_offset [] (o + length (bytes v))))
        (append-nil (bytes v)) (IsElement.gets law v [] o f)

  pub write_all-append :
      (output : SerdeData) (vs : List A)
      → All Fits vs
      → length output + length (all_bytes bytes vs) ≤ room
      → write_all write output vs ≡ ok (output ++ all_bytes bytes vs)
  unfolding write_all
  write_all-append output [] f h = ap ok (sym (append-nil output))
  write_all-append output (v ∷ vs) f h =
      let size = length-append (bytes v) (all_bytes bytes vs) in
      rw (IsElement.puts law output v f.0 (omega (arith, size))) (
        write_all-append (output ++ bytes v) vs f.1
          (omega (arith, size, length-append output (bytes v)))
        ∙ ap ok (append_assoc output (bytes v) (all_bytes bytes vs)))

  pub read_all-append :
      (vs : List A) (rest : SerdeData) (o : ℕ)
      → All Fits vs
      → read_all next (length vs) (at_offset (all_bytes bytes vs ++ rest) o)
        ≡ ok (vs, at_offset rest (o + length (all_bytes bytes vs)))
  unfolding read_all
  read_all-append [] rest o f = ap (λ n. ok ([], at_offset rest n)) (omega arith)
  read_all-append (v ∷ vs) rest o f =
      let size = length-append (bytes v) (all_bytes bytes vs) in
      let place : o + length (bytes v) + length (all_bytes bytes vs)
          ≡ o + length (all_bytes bytes (v ∷ vs)) =
        omega (arith, size) in
      rw
        (
          append_assoc (bytes v) (all_bytes bytes vs) rest,
          IsElement.gets law v (all_bytes bytes vs ++ rest) o f.0,
          read_all-append vs rest (o + length (bytes v)) f.1,
        )
        (ap (λ n. ok (v ∷ vs, at_offset rest n)) place)

module _ (room : ℕ) (limits : SerdeLimits) (small : room ≤ size_max)
    (total : limits.max_total_bytes ≤ size_max) where
  sized_reads :
      (limit : ℕ) (v : SerdeData)
      → FitsSized limit limits v
      → (open_reader (sized_bytes v) limits.max_total_bytes >>= λ r.
          read_sized limit r >>= λ p. ok p.0)
        ≡ ok v
  sized_reads limit v f =
      rw
        (
          open_reader-ok (sized_bytes v) limits.max_total_bytes (omega (arith, f.1)),
          gets_whole (sized-IsElement room limit small) v 0 (f.0, omega arith),
        )
        refl

  pub string-IsFaithful :
      IsFaithful
        (string_serde room limits)
        room
        (FitsSized limits.max_string_bytes limits)
        sized_bytes
  string-IsFaithful = record {
    writes = λ output v f h.
        IsElement.puts (sized-IsElement room limits.max_string_bytes small) output v
          (f.0, omega arith) h;
    reads = sized_reads limits.max_string_bytes;
  }

  pub bytes-IsFaithful :
      IsFaithful (bytes_serde room limits) room (FitsSized limits.max_bytes limits) sized_bytes
  bytes-IsFaithful = record {
    writes = λ output v f h.
        IsElement.puts (sized-IsElement room limits.max_bytes small) output v (f.0, omega arith) h;
    reads = sized_reads limits.max_bytes;
  }
