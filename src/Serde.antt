-- ===== src/Serde.antt =====
-- runtime/serde/serde.hpp and runtime/serde/serdeimpl.hpp: the interface of a serde, the writers and the
-- reader that all of them use. Bytes are numbers below 256, and a `size_t` has 64 bits.
pub mod Words
pub mod Scalars
pub mod Laws
pub mod Order
pub mod Sequences
pub mod SequenceLaws
pub mod ArrayLaws
pub mod Truncation
pub mod Maps
pub mod Defaults
use cppservicelib.Prelude.{
  ℕ, zero, suc, ◌+◌, ◌-◌, ◌*◌, ◌/◌, ◌%◌, ◌^◌, ◌≤◌, ◌≡◌, Bool, true, false, ◌||◌, List, [], ◌∷◌,
  ◌++◌, ltb, if◌then◌else◌, length, set, take, drop,
}

abbrev pub SerdeData : Type 0
SerdeData = List ℕ

-- `SerdeError`, by its message, with the offset that it carries.
pub data Error : Type 0 where
  size_overflow output_overflow frame_offset underflow over_limit truncated count_mismatch :
      ℕ → Error
  not_implemented : Error

pub data Result {ℓ} (A : Type ℓ) : Type ℓ where
  ok : A → Result A
  err : Error → Result A

infixl 5 ◌>>=◌
abbrev pub ◌>>=◌ {ℓ κ} : {A : Type ℓ} {B : Type κ} → Result A → (A → Result B) → Result B
ok a >>= f = f a
err e >>= f = err e

abbrev pub size_max : ℕ
size_max = 2 ^ 64 - 1

pub record SerdeLimits : Type 0 where
  pub max_string_bytes : ℕ
  pub max_bytes : ℕ
  pub max_container_elements : ℕ
  pub max_total_bytes : ℕ

abbrev pub no_limits : SerdeLimits
no_limits = record {
  max_string_bytes = size_max;
  max_bytes = size_max;
  max_container_elements = size_max;
  max_total_bytes = size_max;
}

-- `checked_add`
unfoldable pub checked_add : ℕ → ℕ → Result ℕ
checked_add lhs rhs = if ltb (size_max - lhs) rhs then err (size_overflow 0) else ok (lhs + rhs)

-- `reserve_more`, where `max_size` is what the vector answers.
unfoldable pub reserve_more : ℕ → SerdeData → ℕ → Result SerdeData
reserve_more max_size output additional =
    if ltb (max_size - length output) additional
    then err (output_overflow (length output))
    else ok output

-- The bytes that the writers push, highest first.
abbrev pub u8_bytes : ℕ → SerdeData
u8_bytes n = n % 256 ∷ []

abbrev pub u16_bytes : ℕ → SerdeData
u16_bytes n = n / 2 ^ 8 % 256 ∷ n % 256 ∷ []

abbrev pub u32_bytes : ℕ → SerdeData
u32_bytes n = n / 2 ^ 24 % 256 ∷ n / 2 ^ 16 % 256 ∷ n / 2 ^ 8 % 256 ∷ n % 256 ∷ []

-- `for (int index = 7; index >= 0; --index)`, with `index + 1` rounds left.
abbrev pub be_bytes : ℕ → ℕ → SerdeData
be_bytes zero n = []
be_bytes (suc index) n = n / 2 ^ (index * 8) % 256 ∷ be_bytes index n

abbrev pub u64_bytes : ℕ → SerdeData
u64_bytes n = be_bytes 8 n

unfoldable pub put_u8 : SerdeData → ℕ → SerdeData
put_u8 output n = output ++ u8_bytes n

unfoldable pub put_u16_be : SerdeData → ℕ → SerdeData
put_u16_be output n = output ++ u16_bytes n

unfoldable pub put_u32_be : SerdeData → ℕ → SerdeData
put_u32_be output n = output ++ u32_bytes n

unfoldable pub put_u64_be : SerdeData → ℕ → SerdeData
put_u64_be output n = output ++ u64_bytes n

abbrev pub set_bytes : SerdeData → ℕ → SerdeData → SerdeData
set_bytes output offset [] = output
set_bytes output offset (b ∷ bs) = set_bytes (set output offset b) (suc offset) bs

-- `set_u64_be`
unfoldable pub set_u64_be : SerdeData → ℕ → ℕ → Result SerdeData
set_u64_be output offset n =
    if ltb (length output) offset || ltb (length output - offset) 8
    then err (frame_offset offset)
    else ok (set_bytes output offset (u64_bytes n))

unfoldable pub put_size : SerdeData → ℕ → SerdeData
unfolding put_u64_be
put_size output size = put_u64_be output size

-- `Reader`: the bytes that are not read yet, and the offset of the first of them.
pub record Reader : Type 0 where
  pub unread : SerdeData
  pub offset : ℕ

unfoldable pub open_reader : SerdeData → ℕ → Result Reader
open_reader bytes max_total_bytes =
    if ltb max_total_bytes (length bytes)
    then err (over_limit 0)
    else ok (record { unread = bytes; offset = 0 })

unfoldable pub read : ℕ → Reader → Result (SerdeData × Reader)
read size r =
    if ltb (length r.unread) size
    then err (underflow r.offset)
    else ok (take size r.unread, record { unread = drop size r.unread; offset = r.offset + size })

-- `value = (value << 8) | byte` for each byte: a byte fits the bits that the shift frees, and at most
-- eight bytes are read, which a word of 64 bits holds.
abbrev pub be_value : ℕ → SerdeData → ℕ
be_value value [] = value
be_value value (b ∷ bs) = be_value (value * 256 + b) bs

-- `read_u8`, `read_u16_be`, `read_u32_be` and `read_u64_be` for a width of 1, 2, 4 and 8 bytes.
unfoldable pub read_word : ℕ → Reader → Result (ℕ × Reader)
read_word width r = read width r >>= λ p. ok (be_value 0 p.0, p.1)

unfoldable pub read_size : ℕ → Reader → Result (ℕ × Reader)
read_size maximum r = read_word 8 r >>= λ p.
    if ltb size_max p.0
    then err (over_limit (p.1.offset - 8))
    else if ltb maximum p.0
    then err (over_limit (p.1.offset - 8))
    else ok p

-- `Serde<T>`
pub record Serde (A : Type 0) : Type 0 where
  pub is_stub : Bool
  pub serialize_to : SerdeData → A → Result SerdeData
  pub deserialize : SerdeData → Result A

-- `Serialize`, by `serialize_fresh`.
abbrev pub serialize : {A : Type 0} → Serde A → A → Result SerdeData
serialize s v = s.serialize_to [] v

-- `StubSerde`
pub stub_serde : {A : Type 0} → Serde A
stub_serde = record {
  is_stub = true;
  serialize_to = λ output v. err not_implemented;
  deserialize = λ bytes. err not_implemented;
}
