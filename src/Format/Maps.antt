-- ===== src/Format/Maps.antt =====
-- include/memorypack/containers.hpp: the formatters of std::pair and of maps. A map is the list of its
-- entries in the order of their insertion; `same` is the equality that its key comparison or hash
-- gives. The order of its iterator is not modelled: write_map takes the entries in that order.
pub mod Laws
use memory_pack_cpp.Base.{
  ℕ, zero, suc, ◌+◌, Bool, true, false, List, [], ◌∷◌, ◌++◌, length, ◌||◌, if◌then◌else◌,
}
use memory_pack_cpp.Outcome.{pure, ◌>>=◌, ◌>>◌}
use memory_pack_cpp.Reader.{Read, is_failed}
use memory_pack_cpp.Reader.Headers.{read_collection_length}
use memory_pack_cpp.Writer.{Write}
use memory_pack_cpp.Writer.Headers.{write_collection_header, to_int32_length, if_length}
use memory_pack_cpp.Format.{Formatter, object, collection, container_min_size, min_encoded_size}
use memory_pack_cpp.Format.Collections.{is_empty_length}

module _ {K V : Type 0} (F : Formatter K) (G : Formatter V) where
  -- MemoryPackFormatter<std::pair<K, V>>
  unfoldable pub serialize_pair : K × V → Write
  serialize_pair entry = do F.serialize entry.0; G.serialize entry.1

  unfoldable pub deserialize_pair : K × V → Read (K × V)
  deserialize_pair old = do k ← F.deserialize old.0; v ← G.deserialize old.1; pure (k, v)

  abbrev pub pair_formatter : Formatter (K × V)
  pair_formatter = record {
    kind = object;
    init = (F.init, G.init);
    serialize = serialize_pair;
    deserialize = deserialize_pair;
  }

  -- for (const auto& [key, value] : m) { w.Write(key); w.Write(value); }
  unfoldable pub write_entries : List (K × V) → Write
  write_entries [] = pure tt
  write_entries (entry ∷ entries) = do
    F.serialize entry.0
    G.serialize entry.1
    write_entries entries

  -- MapFormatter<Map>::Serialize, and WriteMap.
  unfoldable pub write_map : List (K × V) → Write
  unfolding write_entries
  write_map entries = do
    n ← to_int32_length (length entries)
    if_length n λ count. do write_collection_header count; write_entries entries

  module _ (same : K → K → Bool) where
    abbrev pub has_key : K → List (K × V) → Bool
    has_key k [] = false
    has_key k (entry ∷ entries) = same k entry.0 || has_key k entries

    -- m.emplace(key, value): a key that is there keeps its value.
    unfoldable pub emplace : List (K × V) → K × V → List (K × V)
    emplace entries entry = if has_key entry.0 entries then entries else entries ++ (entry ∷ [])

    -- for (int32_t i = 0; i < len && !r.Failed(); ++i) { K key{}; V value{}; ... m.emplace(...) }
    unfoldable pub read_entries : ℕ → List (K × V) → Read (List (K × V))
    unfolding emplace
    read_entries zero entries = pure entries
    read_entries (suc left) entries = do
      bad ← is_failed
      if bad then pure entries else (do
        k ← F.deserialize F.init
        v ← G.deserialize G.init
        read_entries left (emplace entries (k, v)))

    unfoldable pub read_map_by : ℕ → Read (List (K × V))
    unfolding read_entries
    read_map_by min_size = do
      len ← read_collection_length min_size
      if is_empty_length len then pure [] else read_entries len []

    -- std::map<K, V> ReadMap() and ReadUnorderedMap()
    unfoldable pub read_map : Read (List (K × V))
    unfolding read_map_by
    read_map = read_map_by (min_encoded_size F.kind + min_encoded_size G.kind)

    -- MapFormatter<Map>
    abbrev pub map_formatter : Formatter (List (K × V))
    map_formatter = record {
      kind = collection;
      init = [];
      serialize = write_map;
      deserialize = λ _. read_map_by (container_min_size F.kind + container_min_size G.kind);
    }
