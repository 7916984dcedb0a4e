-- ===== src/Tests/Serde.antt =====
-- The serdes at small inputs.
use cppservicelib.Prelude.{
  ℕ, ◌≡◌, refl, true, [], ◌∷◌, ◌++◌, pos, negsuc, List, ℤ, take, ltb, if◌then◌else◌, arith,
}
use cppservicelib.Dict.{Dict, find, Unique}
use cppservicelib.Serde.{
  ok, err, over_limit, underflow, no_limits, size_max, u64_bytes, read_size, ◌>>=◌,
}
use cppservicelib.Serde.Words.{at_offset, read_size-over}
use cppservicelib.Serde.Scalars.{bool_serde, uint16_serde}
use cppservicelib.Serde.Laws.{bool-IsFaithful, uint16-IsFaithful}
use cppservicelib.Serde.Sequences.{string_serde}
use cppservicelib.Serde.SequenceLaws.{sized_bytes}
use cppservicelib.Serde.Truncation.{string_truncated}
use cppservicelib.Serde.Maps.{key_value_serde}
use cppservicelib.Serde.Maps.Laws.{map_bytes, pair_bytes, key_value_round_trip}
use cppservicelib.Serde.Defaults.{
  default_serde, default_map_serde, vector, rune, boolean, uint16, int16,
}
use cppservicelib.Serde.Defaults.Laws.{wire, default-IsFaithful, default_map_round_trip}
use cppservicelib.Tests.Keys.{nat_key}

abbrev runes : List ℕ
runes = 9731 ∷ 65 ∷ []

default-IsFaithful_example :
    ((default_serde size_max no_limits (vector rune)).serialize_to (7 ∷ []) runes
      ≡ ok ((7 ∷ []) ++ wire (vector rune) runes))
    × ((default_serde size_max no_limits (vector rune)).deserialize (wire (vector rune) runes)
        ≡ ok runes)
default-IsFaithful_example =
    default-IsFaithful size_max no_limits (omega arith) (omega arith) (omega arith) (vector rune)
      (7 ∷ []) runes
      (omega arith, omega arith, ((omega arith, omega arith), ((omega arith, omega arith), tt)))
      (omega arith)

abbrev entries : Dict ℕ ℤ
entries = (3, negsuc 4) ∷ (260, pos 7) ∷ []

entries-Unique : Unique entries
entries-Unique = unfold find in (refl, (refl, tt))

default_map_round_trip_example :
    (n : Dict ℕ ℤ) × ((default_map_serde size_max no_limits uint16 int16).serialize_to [] entries
      ≡ ok ([] ++ map_bytes (wire (vector uint16)) (wire (vector int16)) entries))
    × ((default_map_serde size_max no_limits uint16 int16).deserialize
          (map_bytes (wire (vector uint16)) (wire (vector int16)) entries)
        ≡ ok n)
    × ((q : ℕ) → find q n ≡ find q entries)
    × Unique n
default_map_round_trip_example =
    default_map_round_trip size_max no_limits (omega arith) (omega arith) (omega arith) uint16 int16
      [] entries entries-Unique
      (
        (
          (omega arith, omega arith, (omega arith, (omega arith, tt))),
          (omega arith, omega arith, (omega arith, (omega arith, tt))),
          omega arith,
        ),
        omega arith,
      )
      (omega arith)

key_value_round_trip_example :
    ((key_value_serde no_limits bool_serde uint16_serde).serialize_pair (true, 513)
      ≡ ok (pair_bytes (wire boolean) (wire uint16) true 513))
    × ((key_value_serde no_limits bool_serde uint16_serde).deserialize_pair
          (pair_bytes (wire boolean) (wire uint16) true 513)
        ≡ ok (true, 513))
    × (((key_value_serde no_limits bool_serde uint16_serde).serialize_key (true, 513) >>= λ a.
          (key_value_serde no_limits bool_serde uint16_serde).serialize_value (true, 513) >>= λ b.
          (key_value_serde no_limits bool_serde uint16_serde).deserialize_key_value a b)
        ≡ ok (true, 513))
key_value_round_trip_example =
    key_value_round_trip no_limits (omega arith) (omega arith) (bool-IsFaithful size_max)
      (uint16-IsFaithful size_max) (true, 513) (tt, omega arith, omega arith) (omega arith)

string_truncated_example :
    (string_serde size_max no_limits).deserialize (take 9 (sized_bytes (104 ∷ 105 ∷ [])))
    ≡ err (underflow (if ltb 9 8 then 0 else 8))
string_truncated_example =
    string_truncated size_max no_limits (104 ∷ 105 ∷ []) 9 (omega arith) (omega arith, omega arith)
      (omega arith)

read_size-over_example : read_size 4 (at_offset (u64_bytes 5 ++ 1 ∷ []) 2) ≡ err (over_limit 2)
read_size-over_example = read_size-over 4 5 (1 ∷ []) 2 (omega arith) (omega arith)
