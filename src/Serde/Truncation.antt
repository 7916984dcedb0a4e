-- ===== src/Serde/Truncation.antt =====
-- runtime/serde/serdeimpl.hpp: data that ends too early is refused.
use cppservicelib.Prelude.{
  ℕ, zero, suc, ◌-◌, ◌≤◌, ◌<◌, ◌≡◌, refl, ap, inl, inr, true, [], ◌∷◌, ◌++◌, ltb, if◌then◌else◌,
  length, take, Bool-cases, arith,
}
use cppservicelib.Serde.{
  SerdeData, err, underflow, SerdeLimits, size_max, u64_bytes, Reader, read, read_word, read_size,
}
use cppservicelib.Serde.Words.{at_offset, read_size-append}
use cppservicelib.Serde.Laws.{open_reader-ok}
use cppservicelib.Serde.Sequences.{read_sized, string_serde}
use cppservicelib.Serde.SequenceLaws.{sized_bytes, FitsSized}

take-beyond :
    (n : ℕ) (xs ys : SerdeData) → length xs ≤ n → take n (xs ++ ys) ≡ xs ++ take (n - length xs) ys
take-beyond n [] ys h = rw (same n) refl
  where
    same : (n : ℕ) → n - 0 ≡ n
    same n = omega arith
take-beyond zero (x ∷ xs) ys h = absurd (omega arith)
take-beyond (suc n) (x ∷ xs) ys h =
    let shift : suc n - suc (length xs) ≡ n - length xs = omega arith in
    rw shift (ap (◌∷◌ x) (take-beyond n xs ys (omega arith)))

length-take : (n : ℕ) (xs : SerdeData) → n ≤ length xs → length (take n xs) ≡ n
length-take zero xs h = refl
length-take (suc n) [] h = absurd (omega arith)
length-take (suc n) (x ∷ xs) h = omega (arith, length-take n xs (omega arith))

read_short : (n : ℕ) (r : Reader) → length r.unread < n → read n r ≡ err (underflow r.offset)
unfolding read
read_short n r h = let e : ltb (length r.unread) n ≡ true = ground arith in rw e refl

read_size_short :
    (maximum : ℕ) (r : Reader)
    → length r.unread < 8
    → read_size maximum r ≡ err (underflow r.offset)
unfolding read_size read_word
read_size_short maximum r h = rw (read_short 8 r h) refl

-- For limits that are sizes of 64 bits: what is left of a written string that fits the limits, when
-- its end is missing, is refused as an underflow, at the start where the length is incomplete, and
-- otherwise behind the length.
pub string_truncated :
    (max_size : ℕ) (limits : SerdeLimits) (v : SerdeData) (n : ℕ)
    → limits.max_total_bytes ≤ size_max
    → FitsSized limits.max_string_bytes limits v
    → n < length (sized_bytes v)
    → (string_serde max_size limits).deserialize (take n (sized_bytes v))
      ≡ err (underflow (if ltb n 8 then 0 else 8))
unfolding read_sized
string_truncated max_size limits v n total f h =
    let bytes = take n (sized_bytes v) in
    let size = length-take n (sized_bytes v) (omega arith) in
    let opened = open_reader-ok bytes limits.max_total_bytes (omega (arith, size)) in
    elim (Bool-cases (ltb n 8)) [
      | inl e ↦
          rw (opened, e, read_sized)
            (rw (read_size_short limits.max_string_bytes (at_offset bytes 0) (ground (arith, size)))
              refl)
      | inr e ↦
          let long : 8 ≤ n = ground arith in
          let split : bytes ≡ u64_bytes (length v) ++ take (n - 8) v =
            take-beyond n (u64_bytes (length v)) v long in
          let rest = length-take (n - 8) v (omega arith) in
          rw (opened, e, split, read_sized)
            (rw
              (read_size-append limits.max_string_bytes (length v) (take (n - 8) v) 0 (omega arith)
                f.0)
              (rw (read_short (length v) (at_offset (take (n - 8) v) 8) (omega (arith, rest)))
                refl))
    ]
