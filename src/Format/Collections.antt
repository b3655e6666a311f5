-- ===== src/Format/Collections.antt =====
-- include/memorypack/core.hpp WriteCollection and ReadCollection, include/memorypack/containers.hpp
-- SequenceFormatter: collections of elements with a formatter of their own.
pub mod Laws
use memory_pack_cpp.Base.{
  ℕ, zero, suc, ◌+◌, ◌*◌, ◌≤◌, ◌<◌, ◌^◌, Bool, true, false, List, [], ◌∷◌, ◌++◌, length, to_le,
  if◌then◌else◌, ◌==◌, leb, ◌||◌,
}
use memory_pack_cpp.Outcome.{pure, ◌>>=◌, ◌>>◌}
use memory_pack_cpp.Reader.{Read, is_failed}
use memory_pack_cpp.Reader.Headers.{read_collection_length, is_negative}
use memory_pack_cpp.Writer.{Write}
use memory_pack_cpp.Writer.Headers.{write_collection_header, to_int32_length, if_length}
use memory_pack_cpp.Format.{Formatter, Kind, collection, min_encoded_size, container_min_size}

-- len <= 0, on an int32_t
abbrev pub is_empty_length : ℕ → Bool
is_empty_length len = is_negative len || len == 0

module _ {A : Type 0} (F : Formatter A) where
  -- for (const auto& item : items) Write(item);
  unfoldable pub write_items : List A → Write
  write_items [] = pure tt
  write_items (item ∷ items) = do F.serialize item; write_items items

  -- void WriteCollection(std::span<const T> items), for T that is not arithmetic, and the
  -- Serialize of SequenceFormatter.
  unfoldable pub write_collection : List A → Write
  unfolding write_items
  write_collection items = do
    n ← to_int32_length (length items)
    if_length n λ count. do write_collection_header count; write_items items

  -- for (int32_t i = 0; i < len && !Failed(); ++i) { T value{}; Read(value); push_back }
  unfoldable pub read_items : ℕ → Read (List A)
  read_items zero = pure []
  read_items (suc left) = do
    bad ← is_failed
    if bad then pure [] else (do v ← F.deserialize F.init; vs ← read_items left; pure (v ∷ vs))

  -- The reading of a collection with the least element size that its caller passes.
  unfoldable pub read_collection_by : ℕ → Read (List A)
  unfolding read_items
  read_collection_by min_size = do
    len ← read_collection_length min_size
    if is_empty_length len then pure [] else read_items len

  -- void ReadCollection(std::vector<T>& out), for T that is not arithmetic.
  unfoldable pub read_collection : Read (List A)
  unfolding read_collection_by
  read_collection = read_collection_by (min_encoded_size F.kind)

  -- MemoryPackFormatter<std::vector<T>>
  abbrev pub vector_formatter : Formatter (List A)
  vector_formatter = record {
    kind = collection;
    init = [];
    serialize = write_collection;
    deserialize = λ _. read_collection;
  }

  -- SequenceFormatter<Container>, for std::deque and std::list.
  abbrev pub sequence_formatter : Formatter (List A)
  sequence_formatter = record {
    kind = collection;
    init = [];
    serialize = write_collection;
    deserialize = λ _. read_collection_by (container_min_size F.kind);
  }
