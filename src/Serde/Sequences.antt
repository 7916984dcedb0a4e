-- ===== src/Serde/Sequences.antt =====
-- runtime/serde/serdeimpl.hpp: strings, byte sequences and arrays. `max_size` is what
-- `SerdeData::max_size()` answers.
use cppservicelib.Prelude.{
  ℕ, zero, suc, ◌-◌, ◌/◌, false, List, [], ◌∷◌, ◌++◌, ltb, if◌then◌else◌, length,
}
use cppservicelib.Serde.{
  SerdeData, Result, ok, err, ◌>>=◌, SerdeLimits, over_limit, truncated, size_overflow, size_max,
  checked_add, reserve_more, put_size, put_u64_be, set_u64_be, Reader, open_reader, read, read_size,
  Serde,
}

-- `StringSerde` and `BasicBytesSerde`: the same code with another limit.
unfoldable pub write_sized : ℕ → ℕ → SerdeData → SerdeData → Result SerdeData
write_sized max_size limit output value =
    if ltb limit (length value)
    then err (over_limit 0)
    else checked_add 8 (length value) >>= λ size. reserve_more max_size output size >>= λ reserved.
        ok (put_size reserved (length value) ++ value)

-- `Serialize` of both, which adds the sizes before it starts.
unfoldable pub serialize_sized : ℕ → ℕ → SerdeData → Result SerdeData
serialize_sized max_size limit value =
    checked_add 8 (length value) >>= λ size. write_sized max_size limit [] value

unfoldable pub read_sized : ℕ → Reader → Result (SerdeData × Reader)
read_sized limit r = read_size limit r >>= λ p. read p.0 p.1

abbrev pub string_serde : ℕ → SerdeLimits → Serde SerdeData
string_serde max_size limits = record {
  is_stub = false;
  serialize_to = write_sized max_size limits.max_string_bytes;
  deserialize = λ bytes. open_reader bytes limits.max_total_bytes >>= λ r.
      read_sized limits.max_string_bytes r >>= λ p. ok p.0;
}

abbrev pub bytes_serde : ℕ → SerdeLimits → Serde SerdeData
bytes_serde max_size limits = record {
  is_stub = false;
  serialize_to = write_sized max_size limits.max_bytes;
  deserialize = λ bytes. open_reader bytes limits.max_total_bytes >>= λ r.
      read_sized limits.max_bytes r >>= λ p. ok p.0;
}

-- `for (const auto& item : value) serde.SerializeTo(output, item)`
unfoldable pub write_all :
    {A : Type 0} → (SerdeData → A → Result SerdeData) → SerdeData → List A → Result SerdeData
write_all write output [] = ok output
write_all write output (x ∷ xs) = write output x >>= λ out. write_all write out xs

-- `for (index = 0; index < count; ++index) result.push_back(...)`
unfoldable pub read_all :
    {A : Type 0} → (Reader → Result (A × Reader)) → ℕ → Reader → Result (List A × Reader)
read_all next zero r = ok ([], r)
read_all next (suc count) r = next r >>= λ p. read_all next count p.1 >>= λ q. ok (p.0 ∷ q.0, q.1)

-- The start of the array serdes: the limit, and the count.
unfoldable pub write_array :
    {A : Type 0}
    → SerdeLimits
    → (SerdeData → A → Result SerdeData)
    → SerdeData
    → List A
    → Result SerdeData
write_array limits write output values =
    if ltb limits.max_container_elements (length values)
    then err (over_limit 0)
    else write_all write (put_size output (length values)) values

module _ {A : Type 0} where
  -- One element of `FixedSizeArraySerde`.
  unfoldable pub read_fixed : Serde A → ℕ → Reader → Result (A × Reader)
  read_fixed element size r = read size r >>= λ p. element.deserialize p.0 >>= λ v. ok (v, p.1)

  -- `FixedSizeArraySerde`; `size` is at least 1.
  unfoldable pub read_fixed_array : SerdeLimits → Serde A → ℕ → SerdeData → Result (List A)
  read_fixed_array limits element size bytes = open_reader bytes limits.max_total_bytes >>= λ r.
      read_size limits.max_container_elements r >>= λ p.
      if ltb (length (p.1.unread) / size) p.0
      then err (truncated p.1.offset)
      else (read_all (read_fixed element size) p.0 p.1 >>= λ q. ok q.0)

  abbrev pub fixed_array_serde : SerdeLimits → Serde A → ℕ → Serde (List A)
  fixed_array_serde limits element size = record {
    is_stub = false;
    serialize_to = write_array limits element.serialize_to;
    deserialize = read_fixed_array limits element size;
  }

  -- `FixedSizeArraySerde::Serialize`
  unfoldable pub serialize_fixed_array : SerdeLimits → Serde A → ℕ → List A → Result SerdeData
  serialize_fixed_array limits element size values =
      if ltb ((size_max - 8) / size) (length values)
      then err (size_overflow 0)
      else write_array limits element.serialize_to [] values

  -- A header, the payload, and then its length over the header.
  unfoldable pub write_framed : Serde A → SerdeData → A → Result SerdeData
  write_framed s output v = s.serialize_to (put_u64_be output 0) v >>= λ out.
      set_u64_be out (length output) (length out - length (put_u64_be output 0))

  unfoldable pub read_framed : SerdeLimits → Serde A → Reader → Result (A × Reader)
  read_framed limits s r = read_size limits.max_total_bytes r >>= λ p.
      read p.0 p.1 >>= λ q. s.deserialize q.0 >>= λ v. ok (v, q.1)

  unfoldable pub read_array :
      SerdeLimits → (Reader → Result (A × Reader)) → SerdeData → Result (List A)
  read_array limits next bytes = open_reader bytes limits.max_total_bytes >>= λ r.
      read_size limits.max_container_elements r >>= λ p. read_all next p.0 p.1 >>= λ q. ok q.0

  -- `ArraySerde`
  abbrev pub array_serde : SerdeLimits → Serde A → Serde (List A)
  array_serde limits s = record {
    is_stub = s.is_stub;
    serialize_to = write_array limits (write_framed s);
    deserialize = read_array limits (read_framed limits s);
  }

-- `StringArraySerde`
abbrev pub string_array_serde : ℕ → SerdeLimits → Serde (List SerdeData)
string_array_serde max_size limits = record {
  is_stub = false;
  serialize_to = write_array limits (write_sized max_size limits.max_string_bytes);
  deserialize = read_array limits (read_sized limits.max_string_bytes);
}
