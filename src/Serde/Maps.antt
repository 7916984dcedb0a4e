-- ===== src/Serde/Maps.antt =====
-- runtime/serde/serdeimpl.hpp: key-value pairs and maps. A map is the list of its entries in the order
-- in which the loop meets them.
pub mod Laws
use cppservicelib.Prelude.{
  ℕ, zero, suc, ◌+◌, Bool, true, false, not, ◌||◌, List, [], ◌∷◌, map, ltb, ◌==◌, if◌then◌else◌,
  length,
}
use cppservicelib.Dict.{Key, Dict, assign}
use cppservicelib.Serde.{
  SerdeData, Error, Result, ok, err, ◌>>=◌, SerdeLimits, over_limit, count_mismatch, Reader,
  open_reader, Serde, serialize,
}
use cppservicelib.Serde.Sequences.{write_framed, read_framed}

-- `StreamKeyValueSerde<T>`
pub record KeyValueSerde (A B : Type 0) : Type 0 where
  pub serialize_pair : A × B → Result SerdeData
  pub deserialize_pair : SerdeData → Result (A × B)
  pub serialize_key : A × B → Result SerdeData
  pub serialize_value : A × B → Result SerdeData
  pub deserialize_key_value : SerdeData → SerdeData → Result (A × B)

-- Two payloads, each behind its header: `StreamKeyValueSerdeImpl` and `MapSerde`.
module _ {A B : Type 0} where
  unfoldable pub write_pair : Serde A → Serde B → SerdeData → A → B → Result SerdeData
  write_pair s t output a b = write_framed s output a >>= λ out. write_framed t out b

  unfoldable pub read_pair : SerdeLimits → Serde A → Serde B → SerdeData → Result (A × B × Reader)
  read_pair limits s t bytes = open_reader bytes limits.max_total_bytes >>= λ r.
      read_framed limits s r >>= λ p. read_framed limits t p.1 >>= λ q. ok (p.0, q.0, q.1)

  -- `StreamKeyValueSerdeImpl`
  abbrev pub key_value_serde : SerdeLimits → Serde A → Serde B → KeyValueSerde A B
  key_value_serde limits s t = record {
    serialize_pair = λ v. write_pair s t [] v.0 v.1;
    deserialize_pair = λ bytes. read_pair limits s t bytes >>= λ p. ok (p.0, p.1);
    serialize_key = λ v. serialize s v.0;
    serialize_value = λ v. serialize t v.1;
    deserialize_key_value =
        λ key value. s.deserialize key >>= λ a. t.deserialize value >>= λ b. ok (a, b);
  }

-- `for (index ...) result.insert_or_assign(keys[index], values[index])`, over arrays of one size.
unfoldable pub assign_all : {K V : Type 0} ⦃key : Key K⦄ → List K → List V → Dict K V → Dict K V
assign_all [] vs d = d
assign_all (k ∷ ks) [] d = d
assign_all (k ∷ ks) (v ∷ vs) d = assign_all ks vs (assign k v d)

abbrev pub keys_of : {K V : Type 0} → Dict K V → List K
keys_of m = map (λ e. e.0) m

abbrev pub values_of : {K V : Type 0} → Dict K V → List V
values_of m = map (λ e. e.1) m

module _ {K V : Type 0} ⦃key : Key K⦄ where
  unfoldable pub build_map : SerdeLimits → List K → List V → Reader → Result (Dict K V)
  build_map limits ks vs r =
      if not (length ks == length vs)
      then err (count_mismatch r.offset)
      else if ltb limits.max_container_elements (length ks)
      then err (over_limit 0)
      else ok (assign_all ks vs [])

  unfoldable pub write_map :
      SerdeLimits → Serde (List K) → Serde (List V) → SerdeData → Dict K V → Result SerdeData
  write_map limits s t output m =
      if ltb limits.max_container_elements (length m)
      then err (over_limit 0)
      else write_pair s t output (keys_of m) (values_of m)

  -- `MapSerde`
  abbrev pub map_serde : SerdeLimits → Serde (List K) → Serde (List V) → Serde (Dict K V)
  map_serde limits s t = record {
    is_stub = s.is_stub || t.is_stub;
    serialize_to = write_map limits s t;
    deserialize = λ bytes. read_pair limits s t bytes >>= λ p. build_map limits p.0 p.1 p.2;
  }
