-- ===== src/Serde/Defaults/Laws.antt =====
-- runtime/serde/serdeimpl.hpp: every default serde reads back what it wrote.
use cppservicelib.Prelude.{ℕ, ◌+◌, ◌≤◌, ◌≡◌, refl, List, ◌++◌, length, if◌then◌else◌, arith}
use cppservicelib.Dict.{Key, Dict, find, Unique}
use cppservicelib.Serde.{
  SerdeData, ok, SerdeLimits, size_max, u8_bytes, u16_bytes, u32_bytes, u64_bytes,
}
use cppservicelib.Serde.Scalars.{to_word, flip_top}
use cppservicelib.Serde.Laws.{
  IsFaithful, InRange, Below, bool-IsFaithful, int8-IsFaithful, uint8-IsFaithful, int16-IsFaithful,
  uint16-IsFaithful, int32-IsFaithful, uint32-IsFaithful, int64-IsFaithful, uint64-IsFaithful,
}
use cppservicelib.Serde.SequenceLaws.{sized_bytes, FitsSized, string-IsFaithful, bytes-IsFaithful}
use cppservicelib.Serde.ArrayLaws.{
  array_bytes, FitsArray, framed_bytes, FitsFramed, string_array-IsFaithful, fixed_array-IsFaithful,
  array-IsFaithful,
}
use cppservicelib.Serde.Maps.Laws.{map_bytes, FitsMap, map_round_trip}
use cppservicelib.Serde.Defaults.{
  Shape, boolean, int8, uint8, int16, uint16, int32, uint32, int64, uint64, float32, float64, rune,
  string, bytes, vector, Value, vector_serde, default_serde, default_map_serde,
}

-- The bytes of a value, in the order of the network.
abbrev pub vector_wire : (s : Shape) → (Value s → SerdeData) → List (Value s) → SerdeData
vector_wire uint8 w = sized_bytes
vector_wire int8 w = array_bytes (framed_bytes w)
vector_wire rune w = array_bytes (framed_bytes w)
vector_wire bytes w = array_bytes (framed_bytes w)
vector_wire (vector s) w = array_bytes (framed_bytes w)
vector_wire string w = array_bytes w
vector_wire boolean w = array_bytes w
vector_wire int16 w = array_bytes w
vector_wire uint16 w = array_bytes w
vector_wire int32 w = array_bytes w
vector_wire uint32 w = array_bytes w
vector_wire int64 w = array_bytes w
vector_wire uint64 w = array_bytes w
vector_wire float32 w = array_bytes w
vector_wire float64 w = array_bytes w

abbrev pub wire : (s : Shape) → Value s → SerdeData
wire boolean = λ v. u8_bytes (if v then 1 else 0)
wire int8 = λ v. u8_bytes (to_word 8 v)
wire uint8 = u8_bytes
wire int16 = λ v. u16_bytes (flip_top 16 (to_word 16 v))
wire uint16 = u16_bytes
wire int32 = λ v. u32_bytes (flip_top 32 (to_word 32 v))
wire uint32 = u32_bytes
wire int64 = λ v. u64_bytes (flip_top 64 (to_word 64 v))
wire uint64 = u64_bytes
wire float32 = u32_bytes
wire float64 = u64_bytes
wire rune = u32_bytes
wire string = sized_bytes
wire bytes = sized_bytes
wire (vector s) = vector_wire s (wire s)

-- The values that a type has and that the limits allow.
abbrev pub FitsVector :
    SerdeLimits → (s : Shape) → (Value s → Type 0) → (Value s → SerdeData) → List (Value s) → Type 0
FitsVector limits uint8 F w = FitsSized limits.max_bytes limits
FitsVector limits int8 F w = FitsArray limits (FitsFramed limits F w) (framed_bytes w)
FitsVector limits rune F w = FitsArray limits (FitsFramed limits F w) (framed_bytes w)
FitsVector limits bytes F w = FitsArray limits (FitsFramed limits F w) (framed_bytes w)
FitsVector limits (vector s) F w = FitsArray limits (FitsFramed limits F w) (framed_bytes w)
FitsVector limits string F w =
    FitsArray limits (λ v. (length v ≤ limits.max_string_bytes) × (length v ≤ size_max)) w
FitsVector limits boolean F w = FitsArray limits F w
FitsVector limits int16 F w = FitsArray limits F w
FitsVector limits uint16 F w = FitsArray limits F w
FitsVector limits int32 F w = FitsArray limits F w
FitsVector limits uint32 F w = FitsArray limits F w
FitsVector limits int64 F w = FitsArray limits F w
FitsVector limits uint64 F w = FitsArray limits F w
FitsVector limits float32 F w = FitsArray limits F w
FitsVector limits float64 F w = FitsArray limits F w

abbrev pub Fits : SerdeLimits → (s : Shape) → Value s → Type 0
Fits limits boolean = λ v. Unit {0}
Fits limits int8 = InRange 8
Fits limits uint8 = Below 8
Fits limits int16 = InRange 16
Fits limits uint16 = Below 16
Fits limits int32 = InRange 32
Fits limits uint32 = Below 32
Fits limits int64 = InRange 64
Fits limits uint64 = Below 64
Fits limits float32 = Below 32
Fits limits float64 = Below 64
Fits limits rune = Below 32
Fits limits string = FitsSized limits.max_string_bytes limits
Fits limits bytes = FitsSized limits.max_bytes limits
Fits limits (vector s) = FitsVector limits s (Fits limits s) (wire s)

module _ (room : ℕ) (limits : SerdeLimits) (small : room ≤ size_max)
    (elements : limits.max_container_elements ≤ size_max)
    (total : limits.max_total_bytes ≤ size_max) where
  -- An array of a type whose default serde is faithful.
  vector-IsFaithful :
      (s : Shape)
      → IsFaithful (default_serde room limits s) room (Fits limits s) (wire s)
      → IsFaithful
          (vector_serde room limits s (default_serde room limits s))
          room
          (Fits limits (vector s))
          (wire (vector s))
  unfolding vector_serde default_serde
  vector-IsFaithful boolean law =
      fixed_array-IsFaithful limits elements law 1 (omega arith) (λ v f. refl)
  vector-IsFaithful int16 law =
      fixed_array-IsFaithful limits elements law 2 (omega arith) (λ v f. refl)
  vector-IsFaithful uint16 law =
      fixed_array-IsFaithful limits elements law 2 (omega arith) (λ v f. refl)
  vector-IsFaithful int32 law =
      fixed_array-IsFaithful limits elements law 4 (omega arith) (λ v f. refl)
  vector-IsFaithful uint32 law =
      fixed_array-IsFaithful limits elements law 4 (omega arith) (λ v f. refl)
  vector-IsFaithful int64 law =
      fixed_array-IsFaithful limits elements law 8 (omega arith) (λ v f. refl)
  vector-IsFaithful uint64 law =
      fixed_array-IsFaithful limits elements law 8 (omega arith) (λ v f. refl)
  vector-IsFaithful float32 law =
      fixed_array-IsFaithful limits elements law 4 (omega arith) (λ v f. refl)
  vector-IsFaithful float64 law =
      fixed_array-IsFaithful limits elements law 8 (omega arith) (λ v f. refl)
  vector-IsFaithful uint8 law = bytes-IsFaithful room limits small total
  vector-IsFaithful string law = string_array-IsFaithful limits elements room small
  vector-IsFaithful int8 law = array-IsFaithful limits elements law total
  vector-IsFaithful rune law = array-IsFaithful limits elements law total
  vector-IsFaithful bytes law = array-IsFaithful limits elements law total
  vector-IsFaithful (vector s) law = array-IsFaithful limits elements law total

  default_lem : (s : Shape) → IsFaithful (default_serde room limits s) room (Fits limits s) (wire s)
  unfolding default_serde
  default_lem boolean = bool-IsFaithful room
  default_lem int8 = int8-IsFaithful room
  default_lem uint8 = uint8-IsFaithful room
  default_lem int16 = int16-IsFaithful room
  default_lem uint16 = uint16-IsFaithful room
  default_lem int32 = int32-IsFaithful room
  default_lem uint32 = uint32-IsFaithful room
  default_lem int64 = int64-IsFaithful room
  default_lem uint64 = uint64-IsFaithful room
  default_lem float32 = uint32-IsFaithful room
  default_lem float64 = uint64-IsFaithful room
  default_lem rune = uint32-IsFaithful room
  default_lem string = string-IsFaithful room limits small total
  default_lem bytes = bytes-IsFaithful room limits small total
  default_lem (vector s) = vector-IsFaithful s (default_lem s)

  -- For each type of Booleans, integers, floats, runes, strings and bytes, and vectors of them to any
  -- depth, and for limits and room that are sizes of 64 bits: where a value has the range of its type
  -- and fits the limits, the default serde appends its bytes to an output that has room for them, and
  -- reads the value back from these bytes.
  pub default-IsFaithful :
      (s : Shape) (output : SerdeData) (v : Value s)
      → Fits limits s v
      → length output + length (wire s v) ≤ room
      → ((default_serde room limits s).serialize_to output v ≡ ok (output ++ wire s v))
        × ((default_serde room limits s).deserialize (wire s v) ≡ ok v)
  default-IsFaithful s output v f h =
      (IsFaithful.writes (default_lem s) output v f h, IsFaithful.reads (default_lem s) v f)

  -- For maps with keys and values that have default serdes and are no maps, each key once, and for
  -- limits and room that are sizes of 64 bits: where the keys and the values fit their vectors, and
  -- the map fits the limits, the default serde appends the bytes of the map to an output that has room
  -- for them, and what it reads back from these bytes has the same value for every key, and each key
  -- once.
  pub default_map_round_trip :
      (k v : Shape) ⦃key : Key (Value k)⦄ (output : SerdeData) (m : Dict (Value k) (Value v))
      → Unique m
      → FitsMap limits
          (Fits limits (vector k))
          (Fits limits (vector v))
          (wire (vector k))
          (wire (vector v))
          m
      → length output + length (map_bytes (wire (vector k)) (wire (vector v)) m) ≤ room
      → (n : Dict (Value k) (Value v)) × ((default_map_serde room limits k v).serialize_to output m
          ≡ ok (output ++ map_bytes (wire (vector k)) (wire (vector v)) m))
        × ((default_map_serde room limits k v).deserialize
              (map_bytes (wire (vector k)) (wire (vector v)) m)
            ≡ ok n)
        × ((q : Value k) → find q n ≡ find q m)
        × Unique n
  default_map_round_trip k v output m =
      map_round_trip limits elements total (default_lem (vector k)) (default_lem (vector v)) output
        m
