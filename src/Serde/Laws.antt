-- ===== src/Serde/Laws.antt =====
-- What a serde owes to the code that uses it, and that the scalar serdes pay it.
use cppservicelib.Prelude.{
  ℕ, ◌+◌, ◌-◌, ◌^◌, ◌≤◌, ◌<◌, ◌≡◌, refl, ap, subst, ◌∙◌, Bool, true, false, not, [], ◌++◌, ltb,
  ◌==◌, if◌then◌else◌, length, ℤ, pos, negsuc, append-nil, arith,
}
use cppservicelib.Serde.{
  SerdeData, ok, size_max, u8_bytes, u16_bytes, u32_bytes, u64_bytes, be_value, open_reader, Serde,
  put_u8, put_u16_be, put_u32_be, put_u64_be,
}
use cppservicelib.Serde.Words.{
  at_offset, read_word-append, value-u8, value-u16, value-u32, value-u64,
}
use cppservicelib.Serde.Scalars.{
  read_scalar, to_word, from_word, flip_top, bool_serde, int8_serde, uint8_serde, int16_serde,
  uint16_serde, int32_serde, uint32_serde, int64_serde, uint64_serde,
}

-- On the values that fit, the serde appends `bytes v` to any output that has room for them below
-- `room`, and reads the value back from exactly these bytes.
pub record IsFaithful {A : Type 0} (s : Serde A) (room : ℕ) (Fits : A → Type 0)
    (bytes : A → SerdeData) : Type 0 where
  pub writes :
      (output : SerdeData) (v : A)
      → Fits v
      → length output + length (bytes v) ≤ room
      → s.serialize_to output v ≡ ok (output ++ bytes v)
  pub reads : (v : A) → Fits v → s.deserialize (bytes v) ≡ ok v

pub open_reader-ok :
    (bytes : SerdeData) (limit : ℕ)
    → length bytes ≤ limit
    → open_reader bytes limit ≡ ok (at_offset bytes 0)
unfolding open_reader
open_reader-ok bytes limit h = let e : ltb limit (length bytes) ≡ false = ground arith in rw e refl

-- A scalar is read from the front of the data.
pub read_scalar-append :
    {A : Type 0} (width : ℕ) (f : ℕ → A) (n : ℕ) (xs rest : SerdeData)
    → length xs ≡ width
    → be_value 0 xs ≡ n
    → length (xs ++ rest) ≤ size_max
    → read_scalar width f (xs ++ rest) ≡ ok (f n)
unfolding read_scalar
read_scalar-append width f n xs rest e g h =
    rw (open_reader-ok (xs ++ rest) size_max h, read_word-append width n xs rest 0 e g) refl

read_scalar_lem :
    {A : Type 0} (width : ℕ) (f : ℕ → A) (n : ℕ) (xs : SerdeData)
    → length xs ≡ width
    → be_value 0 xs ≡ n
    → length xs ≤ size_max
    → read_scalar width f xs ≡ ok (f n)
read_scalar_lem width f n xs e g h =
    subst (λ ys. read_scalar width f ys ≡ ok (f n)) (append-nil xs)
      (read_scalar-append width f n xs [] e g (rw (append-nil xs) h))

-- The range of a signed integer of `bits`.
abbrev pub InRange : ℕ → ℤ → Type 0
InRange bits (pos n) = n < 2 ^ (bits - 1)
InRange bits (negsuc n) = n < 2 ^ (bits - 1)

abbrev pub Below : ℕ → ℕ → Type 0
Below bits n = n < 2 ^ bits

pub bool-IsFaithful :
    (room : ℕ) → IsFaithful bool_serde room (λ v. Unit {0}) (λ v. u8_bytes (if v then 1 else 0))
unfolding put_u8
bool-IsFaithful room = record { writes = λ output v f h. refl; reads = λ v f. go v }
  where
    go : (v : Bool) → bool_serde.deserialize (u8_bytes (if v then 1 else 0)) ≡ ok v
    go true = read_scalar_lem 1 (λ n. not (n == 0)) 1 (u8_bytes 1) refl refl (omega arith)
    go false = read_scalar_lem 1 (λ n. not (n == 0)) 0 (u8_bytes 0) refl refl (omega arith)

pub uint8-IsFaithful : (room : ℕ) → IsFaithful uint8_serde room (Below 8) u8_bytes
unfolding put_u8
uint8-IsFaithful room = record {
  writes = λ output v f h. refl;
  reads = λ v f. read_scalar_lem 1 (λ n. n) v (u8_bytes v) refl (value-u8 v f) (omega arith);
}

pub uint16-IsFaithful : (room : ℕ) → IsFaithful uint16_serde room (Below 16) u16_bytes
unfolding put_u16_be
uint16-IsFaithful room = record {
  writes = λ output v f h. refl;
  reads = λ v f. read_scalar_lem 2 (λ n. n) v (u16_bytes v) refl (value-u16 v f) (omega arith);
}

pub uint32-IsFaithful : (room : ℕ) → IsFaithful uint32_serde room (Below 32) u32_bytes
unfolding put_u32_be
uint32-IsFaithful room = record {
  writes = λ output v f h. refl;
  reads = λ v f. read_scalar_lem 4 (λ n. n) v (u32_bytes v) refl (value-u32 v f) (omega arith);
}

pub uint64-IsFaithful : (room : ℕ) → IsFaithful uint64_serde room (Below 64) u64_bytes
unfolding put_u64_be
uint64-IsFaithful room = record {
  writes = λ output v f h. refl;
  reads = λ v f. read_scalar_lem 8 (λ n. n) v (u64_bytes v) refl (value-u64 v f) (omega arith);
}

word8 : (v : ℤ) → InRange 8 v → (to_word 8 v < 2 ^ 8) × (from_word 8 (to_word 8 v) ≡ v)
word8 (pos n) h = ground arith
word8 (negsuc n) h = ground arith

word16 :
    (v : ℤ)
    → InRange 16 v
    → (flip_top 16 (to_word 16 v) < 2 ^ 16)
      × (from_word 16 (flip_top 16 (flip_top 16 (to_word 16 v))) ≡ v)
word16 (pos n) h = ground arith
word16 (negsuc n) h = ground arith

word32 :
    (v : ℤ)
    → InRange 32 v
    → (flip_top 32 (to_word 32 v) < 2 ^ 32)
      × (from_word 32 (flip_top 32 (flip_top 32 (to_word 32 v))) ≡ v)
word32 (pos n) h = ground arith
word32 (negsuc n) h = ground arith

word64 :
    (v : ℤ)
    → InRange 64 v
    → (flip_top 64 (to_word 64 v) < 2 ^ 64)
      × (from_word 64 (flip_top 64 (flip_top 64 (to_word 64 v))) ≡ v)
word64 (pos n) h = ground arith
word64 (negsuc n) h = ground arith

pub int8-IsFaithful :
    (room : ℕ) → IsFaithful int8_serde room (InRange 8) (λ v. u8_bytes (to_word 8 v))
unfolding put_u8
int8-IsFaithful room = record {
  writes = λ output v f h. refl;
  reads = λ v f.
      let (small, back) = word8 v f in
      read_scalar_lem 1 (from_word 8) _ (u8_bytes (to_word 8 v)) refl (value-u8 _ small)
        (omega arith)
      ∙ ap ok back;
}

pub int16-IsFaithful :
    (room : ℕ)
    → IsFaithful int16_serde room (InRange 16) (λ v. u16_bytes (flip_top 16 (to_word 16 v)))
unfolding put_u16_be
int16-IsFaithful room = record {
  writes = λ output v f h. refl;
  reads = λ v f.
      let (small, back) = word16 v f in
      read_scalar_lem 2 (λ n. from_word 16 (flip_top 16 n)) _
        (u16_bytes (flip_top 16 (to_word 16 v))) refl (value-u16 _ small) (omega arith)
      ∙ ap ok back;
}

pub int32-IsFaithful :
    (room : ℕ)
    → IsFaithful int32_serde room (InRange 32) (λ v. u32_bytes (flip_top 32 (to_word 32 v)))
unfolding put_u32_be
int32-IsFaithful room = record {
  writes = λ output v f h. refl;
  reads = λ v f.
      let (small, back) = word32 v f in
      read_scalar_lem 4 (λ n. from_word 32 (flip_top 32 n)) _
        (u32_bytes (flip_top 32 (to_word 32 v))) refl (value-u32 _ small) (omega arith)
      ∙ ap ok back;
}

pub int64-IsFaithful :
    (room : ℕ)
    → IsFaithful int64_serde room (InRange 64) (λ v. u64_bytes (flip_top 64 (to_word 64 v)))
unfolding put_u64_be
int64-IsFaithful room = record {
  writes = λ output v f h. refl;
  reads = λ v f.
      let (small, back) = word64 v f in
      read_scalar_lem 8 (λ n. from_word 64 (flip_top 64 n)) _
        (u64_bytes (flip_top 64 (to_word 64 v))) refl (value-u64 _ small) (omega arith)
      ∙ ap ok back;
}
