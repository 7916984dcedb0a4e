-- ===== src/Serde/Scalars.antt =====
-- runtime/serde/serdeimpl.hpp: the serdes of Booleans, integers, runes and floats. A float is its bit
-- pattern, which `bit_cast` keeps.
use cppservicelib.Prelude.{
  ℕ, ◌+◌, ◌-◌, ◌%◌, ◌^◌, Bool, false, not, ltb, ◌==◌, if◌then◌else◌, ℤ, pos, negsuc,
}
use cppservicelib.Serde.{
  SerdeData, Result, ok, ◌>>=◌, Serde, size_max, open_reader, read_word, put_u8, put_u16_be,
  put_u32_be, put_u64_be,
}

-- A reader on all of the data, and one read of a word; what stands behind the word is not looked at.
unfoldable pub read_scalar : {A : Type 0} → ℕ → (ℕ → A) → SerdeData → Result A
read_scalar width f bytes =
    open_reader bytes size_max >>= λ r. read_word width r >>= λ p. ok (f p.0)

-- `bit_cast` between a signed integer and the word of `2 ^ bits`.
abbrev pub to_word : ℕ → ℤ → ℕ
to_word bits (pos n) = n
to_word bits (negsuc n) = 2 ^ bits - 1 - n

abbrev pub from_word : ℕ → ℕ → ℤ
from_word bits u = if ltb u (2 ^ (bits - 1)) then pos u else negsuc (2 ^ bits - 1 - u)

-- `^` with the highest bit of the word, which is to add it and to drop the carry.
abbrev pub flip_top : ℕ → ℕ → ℕ
flip_top bits u = (u + 2 ^ (bits - 1)) % 2 ^ bits

abbrev pub bool_serde : Serde Bool
bool_serde = record {
  is_stub = false;
  serialize_to = λ output v. ok (put_u8 output (if v then 1 else 0));
  deserialize = read_scalar 1 (λ n. not (n == 0));
}

abbrev pub int8_serde : Serde ℤ
int8_serde = record {
  is_stub = false;
  serialize_to = λ output v. ok (put_u8 output (to_word 8 v));
  deserialize = read_scalar 1 (from_word 8);
}

abbrev pub uint8_serde : Serde ℕ
uint8_serde = record {
  is_stub = false;
  serialize_to = λ output v. ok (put_u8 output v);
  deserialize = read_scalar 1 (λ n. n);
}

abbrev pub int16_serde : Serde ℤ
int16_serde = record {
  is_stub = false;
  serialize_to = λ output v. ok (put_u16_be output (flip_top 16 (to_word 16 v)));
  deserialize = read_scalar 2 (λ n. from_word 16 (flip_top 16 n));
}

abbrev pub uint16_serde : Serde ℕ
uint16_serde = record {
  is_stub = false;
  serialize_to = λ output v. ok (put_u16_be output v);
  deserialize = read_scalar 2 (λ n. n);
}

abbrev pub int32_serde : Serde ℤ
int32_serde = record {
  is_stub = false;
  serialize_to = λ output v. ok (put_u32_be output (flip_top 32 (to_word 32 v)));
  deserialize = read_scalar 4 (λ n. from_word 32 (flip_top 32 n));
}

-- `RuneSerde` and `Float32Serde` too.
abbrev pub uint32_serde : Serde ℕ
uint32_serde = record {
  is_stub = false;
  serialize_to = λ output v. ok (put_u32_be output v);
  deserialize = read_scalar 4 (λ n. n);
}

abbrev pub int64_serde : Serde ℤ
int64_serde = record {
  is_stub = false;
  serialize_to = λ output v. ok (put_u64_be output (flip_top 64 (to_word 64 v)));
  deserialize = read_scalar 8 (λ n. from_word 64 (flip_top 64 n));
}

-- `Float64Serde` too.
abbrev pub uint64_serde : Serde ℕ
uint64_serde = record {
  is_stub = false;
  serialize_to = λ output v. ok (put_u64_be output v);
  deserialize = read_scalar 8 (λ n. n);
}
