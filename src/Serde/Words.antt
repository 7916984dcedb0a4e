-- ===== src/Serde/Words.antt =====
-- runtime/serde/serdeimpl.hpp: what the writers push, the reader reads back.
use cppservicelib.Prelude.{
  ℕ, suc, ◌+◌, ◌-◌, ◌^◌, ◌≤◌, ◌<◌, ◌≡◌, refl, ap, subst, true, false, ◌||◌, [], ◌∷◌, ◌++◌, ltb,
  length, length-append, set, take-append, drop-append, arith,
}
use cppservicelib.Serde.{
  SerdeData, Error, ok, err, size_max, u8_bytes, u16_bytes, u32_bytes, u64_bytes, be_value, Reader,
  read, read_word, read_size, set_bytes, set_u64_be,
}

pub value-u8 : (n : ℕ) → n < 2 ^ 8 → be_value 0 (u8_bytes n) ≡ n
value-u8 n h = omega arith

pub value-u16 : (n : ℕ) → n < 2 ^ 16 → be_value 0 (u16_bytes n) ≡ n
value-u16 n h = omega arith

pub value-u32 : (n : ℕ) → n < 2 ^ 32 → be_value 0 (u32_bytes n) ≡ n
value-u32 n h = omega arith

pub value-u64 : (n : ℕ) → n < 2 ^ 64 → be_value 0 (u64_bytes n) ≡ n
value-u64 n h = omega arith

abbrev pub at_offset : SerdeData → ℕ → Reader
at_offset bytes offset = record { unread = bytes; offset = offset }

pub read-append :
    (xs rest : SerdeData) (o : ℕ)
    → read (length xs) (at_offset (xs ++ rest) o) ≡ ok (xs, at_offset rest (o + length xs))
unfolding read
read-append xs rest o =
    let enough : ltb (length (xs ++ rest)) (length xs) ≡ false =
      rw (length-append xs rest) (ground arith) in
    rw (enough, take-append xs rest, drop-append xs rest) refl

read_word-length :
    (n : ℕ) (xs rest : SerdeData) (o : ℕ)
    → be_value 0 xs ≡ n
    → read_word (length xs) (at_offset (xs ++ rest) o) ≡ ok (n, at_offset rest (o + length xs))
unfolding read_word
read_word-length n xs rest o f = rw (read-append xs rest o, f) refl

pub read_word-append :
    (width n : ℕ) (xs rest : SerdeData) (o : ℕ)
    → length xs ≡ width
    → be_value 0 xs ≡ n
    → read_word width (at_offset (xs ++ rest) o) ≡ ok (n, at_offset rest (o + width))
read_word-append width n xs rest o e f =
    subst (λ w. read_word w (at_offset (xs ++ rest) o) ≡ ok (n, at_offset rest (o + w))) e
      (read_word-length n xs rest o f)

pub read_size-append :
    (maximum n : ℕ) (rest : SerdeData) (o : ℕ)
    → n ≤ size_max
    → n ≤ maximum
    → read_size maximum (at_offset (u64_bytes n ++ rest) o) ≡ ok (n, at_offset rest (o + 8))
unfolding read_size
read_size-append maximum n rest o small fits =
    let word = read_word-append 8 n (u64_bytes n) rest o refl (value-u64 n (omega arith)) in
    let first : ltb size_max n ≡ false = ground arith in
    let second : ltb maximum n ≡ false = ground arith in rw (word, first, second) refl

-- A size above the limit is refused, at the offset where it starts.
pub read_size-over :
    (maximum n : ℕ) (rest : SerdeData) (o : ℕ)
    → n ≤ size_max
    → maximum < n
    → read_size maximum (at_offset (u64_bytes n ++ rest) o) ≡ err (Error.over_limit o)
unfolding read_size
read_size-over maximum n rest o small large =
    let word = read_word-append 8 n (u64_bytes n) rest o refl (value-u64 n (omega arith)) in
    let first : ltb size_max n ≡ false = ground arith in
    let second : ltb maximum n ≡ true = ground arith in
    let same : o + 8 - 8 ≡ o = omega arith in rw (word, first, second, same) refl

set-append :
    (xs : SerdeData) (y b : ℕ) (ys : SerdeData) → set (xs ++ y ∷ ys) (length xs) b ≡ xs ++ b ∷ ys
set-append [] y b ys = refl
set-append (x ∷ xs) y b ys = ap (◌∷◌ x) (set-append xs y b ys)

append-snoc : (xs : SerdeData) (b : ℕ) (ys : SerdeData) → xs ++ b ∷ ys ≡ (xs ++ b ∷ []) ++ ys
append-snoc [] b ys = refl
append-snoc (x ∷ xs) b ys = ap (◌∷◌ x) (append-snoc xs b ys)

length-snoc : (xs : SerdeData) (b : ℕ) → length (xs ++ b ∷ []) ≡ suc (length xs)
length-snoc xs b = omega (arith, length-append xs (b ∷ []))

-- Bytes that are written over as many others.
set_bytes-append :
    (out old new rest : SerdeData)
    → length old ≡ length new
    → set_bytes (out ++ (old ++ rest)) (length out) new ≡ out ++ (new ++ rest)
set_bytes-append out [] [] rest e = refl
set_bytes-append out [] (n ∷ ns) rest e = absurd (omega arith)
set_bytes-append out (o ∷ os) [] rest e = absurd (omega arith)
set_bytes-append out (o ∷ os) (n ∷ ns) rest e =
    rw
      (
        set-append out o n (os ++ rest),
        append-snoc out n (os ++ rest),
        append-snoc out n (ns ++ rest),
        ← length-snoc out n,
      )
      (set_bytes-append (out ++ n ∷ []) os ns rest (omega arith))

pub set_u64_be-append :
    (out rest : SerdeData) (m n : ℕ)
    → set_u64_be (out ++ (u64_bytes m ++ rest)) (length out) n ≡ ok (out ++ (u64_bytes n ++ rest))
unfolding set_u64_be
set_u64_be-append out rest m n =
    let size = length-append out (u64_bytes m ++ rest) in
    let inside : (ltb (length (out ++ (u64_bytes m ++ rest))) (length out)
          || ltb (length (out ++ (u64_bytes m ++ rest)) - length out) 8)
        ≡ false =
      rw size (ground arith) in
    rw inside (ap ok (set_bytes-append out (u64_bytes m) (u64_bytes n) rest refl))
