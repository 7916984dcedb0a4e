-- ===== src/Serde/Defaults.antt =====
-- runtime/serde/serdeimpl.hpp: the serde that `MakeDefaultSerde` chooses for a type.
pub mod Laws
use cppservicelib.Prelude.{ℕ, Bool, List, ℤ}
use cppservicelib.Dict.{Key, Dict}
use cppservicelib.Serde.{SerdeData, SerdeLimits, Serde}
use cppservicelib.Serde.Scalars.{
  bool_serde, int8_serde, uint8_serde, int16_serde, uint16_serde, int32_serde, uint32_serde,
  int64_serde, uint64_serde,
}
use cppservicelib.Serde.Sequences.{
  string_serde, bytes_serde, fixed_array_serde, array_serde, string_array_serde,
}
use cppservicelib.Serde.Maps.{map_serde}

-- The types with a `DefaultSerdeFactory` but the maps, whose entries have an order here: `bytes` is
-- `SerdeData`, and `vector` is `std::vector` of another type than `std::byte`.
pub data Shape : Type 0 where
  boolean int8 uint8 int16 uint16 int32 uint32 int64 uint64 float32 float64 rune string bytes :
      Shape
  vector : Shape → Shape

-- The values of a type. Floats and runes are their bits.
abbrev pub Value : Shape → Type 0
Value boolean = Bool
Value int8 = ℤ
Value uint8 = ℕ
Value int16 = ℤ
Value uint16 = ℕ
Value int32 = ℤ
Value uint32 = ℕ
Value int64 = ℤ
Value uint64 = ℕ
Value float32 = ℕ
Value float64 = ℕ
Value rune = ℕ
Value string = SerdeData
Value bytes = SerdeData
Value (vector s) = List (Value s)

module _ (max_size : ℕ) (limits : SerdeLimits) where
  -- `DefaultSerdeFactory<std::vector<T>>`, given the default serde of the type `T`.
  unfoldable pub vector_serde : (s : Shape) → Serde (Value s) → Serde (List (Value s))
  vector_serde boolean e = fixed_array_serde limits bool_serde 1
  vector_serde int16 e = fixed_array_serde limits int16_serde 2
  vector_serde uint16 e = fixed_array_serde limits uint16_serde 2
  vector_serde int32 e = fixed_array_serde limits int32_serde 4
  vector_serde uint32 e = fixed_array_serde limits uint32_serde 4
  vector_serde int64 e = fixed_array_serde limits int64_serde 8
  vector_serde uint64 e = fixed_array_serde limits uint64_serde 8
  vector_serde float32 e = fixed_array_serde limits uint32_serde 4
  vector_serde float64 e = fixed_array_serde limits uint64_serde 8
  vector_serde uint8 e = bytes_serde max_size limits
  vector_serde string e = string_array_serde max_size limits
  vector_serde int8 e = array_serde limits e
  vector_serde rune e = array_serde limits e
  vector_serde bytes e = array_serde limits e
  vector_serde (vector s) e = array_serde limits e

  -- `MakeDefaultSerde`
  unfoldable pub default_serde : (s : Shape) → Serde (Value s)
  default_serde boolean = bool_serde
  default_serde int8 = int8_serde
  default_serde uint8 = uint8_serde
  default_serde int16 = int16_serde
  default_serde uint16 = uint16_serde
  default_serde int32 = int32_serde
  default_serde uint32 = uint32_serde
  default_serde int64 = int64_serde
  default_serde uint64 = uint64_serde
  default_serde float32 = uint32_serde
  default_serde float64 = uint64_serde
  default_serde rune = uint32_serde
  default_serde string = string_serde max_size limits
  default_serde bytes = bytes_serde max_size limits
  default_serde (vector s) = vector_serde s (default_serde s)

  -- `DefaultSerdeFactory<std::unordered_map<K, V>>`
  abbrev pub default_map_serde :
      (k v : Shape) ⦃key : Key (Value k)⦄ → Serde (Dict (Value k) (Value v))
  default_map_serde k v = map_serde limits (default_serde (vector k)) (default_serde (vector v))
