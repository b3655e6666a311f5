-- ===== src/Format/Optionals.antt =====
-- include/memorypack/containers.hpp, std::optional of a collection and of std::u16string;
-- include/memorypack/core.hpp, WriteOptional, WritePointer, WriteNullableObject and their readers.
pub mod Laws
use memory_pack_cpp.Base.{ℕ, Bool, true, false, List, ltb, ◌==◌, if◌then◌else◌, Option, none, some}
use memory_pack_cpp.Outcome.{Outcome, returned, thrown, fault, pure, ◌>>=◌, ◌>>◌}
use memory_pack_cpp.Reader.{Reader, Read, remaining, advance}
use memory_pack_cpp.Reader.Headers.{null_object, null_collection, read_byte, read_collection_header}
use memory_pack_cpp.Writer.{Write, append_byte}
use memory_pack_cpp.Writer.Headers.{write_null_object_header, write_null_collection_header}
use memory_pack_cpp.Writer.Strings.{write_null_string}
use memory_pack_cpp.Format.{Formatter, object}
use memory_pack_cpp.Format.Nullable.{write_reference, read_reference}
use memory_pack_cpp.Format.Wide.{u16string_formatter}

-- What a copy of the reader makes of the next four bytes: the reader itself stays.
abbrev pub peeked : Reader → Outcome Reader ℕ → Outcome Reader Bool
peeked r (returned header copy) = returned (header == null_collection) r
peeked r (thrown e copy) = thrown e r
peeked r fault = fault

-- r.Remaining() >= sizeof(int32_t), and peek.ReadCollectionHeader() == NULL_COLLECTION on a copy.
unfoldable pub peek_is_null_collection : Read Bool
unfolding read_collection_header
peek_is_null_collection r =
    if ltb (remaining r) 4 then returned false r else peeked r (read_collection_header r)

module _ {A : Type 0} (F : Formatter A) where
  -- MemoryPackFormatter<std::optional<T>> where the null encoding of T is Collection.
  unfoldable pub write_optional_collection : Option A → Write
  write_optional_collection none = write_null_collection_header
  write_optional_collection (some v) = F.serialize v

  unfoldable pub read_optional_collection : Read (Option A)
  unfolding peek_is_null_collection
  read_optional_collection = do
    is_null ← peek_is_null_collection
    if is_null then (do advance 4; pure none) else (do v ← F.deserialize F.init; pure (some v))

  abbrev pub optional_collection_formatter : Formatter (Option A)
  optional_collection_formatter = record {
    kind = object;
    init = none;
    serialize = write_optional_collection;
    deserialize = λ _. read_optional_collection;
  }

  -- void WriteNullableObject(const std::optional<T>& v)
  unfoldable pub write_nullable_object : Option A → Write
  write_nullable_object none = write_null_object_header
  write_nullable_object (some v) = do append_byte 1; F.serialize v

  -- std::optional<T> ReadNullableObject()
  unfoldable pub read_nullable_object : Read (Option A)
  read_nullable_object = do
    b ← read_byte
    if b == null_object then pure none else (do v ← F.deserialize F.init; pure (some v))

  -- void WriteOptional(const std::optional<T>& v)
  abbrev pub write_optional : Option A → Write
  write_optional = write_reference F

  -- void WritePointer(const T* v)
  abbrev pub write_pointer : Option A → Write
  write_pointer = write_reference F

  -- std::optional<T> ReadOptional()
  abbrev pub read_optional : Read (Option A)
  read_optional = read_reference F

-- MemoryPackFormatter<std::optional<std::u16string>>, with the null string of four bytes -1.
unfoldable pub write_optional_wide : Option (List ℕ) → Write
write_optional_wide none = write_null_string
write_optional_wide (some s) = u16string_formatter.serialize s

abbrev pub optional_wide_formatter : Formatter (Option (List ℕ))
optional_wide_formatter = record {
  kind = object;
  init = none;
  serialize = write_optional_wide;
  deserialize = λ _. read_optional_collection u16string_formatter;
}
