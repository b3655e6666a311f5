-- ===== src/Format/Nullable.antt =====
-- include/memorypack/containers.hpp, the formatters of std::optional and of the smart pointers;
-- include/memorypack/core.hpp, WriteNullable and ReadNullable.
pub mod Laws
use memory_pack_cpp.Base.{
  ℕ, ◌+◌, ◌-◌, ◌*◌, ◌/◌, Bool, true, false, List, [], ◌∷◌, ◌++◌, take, drop, replicate, length,
  ◌==◌, if◌then◌else◌, Option, none, some, to_le, from_le,
}
use memory_pack_cpp.Outcome.{pure, ◌>>=◌, ◌>>◌}
use memory_pack_cpp.Reader.{Read, ensure_bytes, take_bytes}
use memory_pack_cpp.Reader.Headers.{read_byte, peek_is_null, first_byte}
use memory_pack_cpp.Reader.Strings.{read_string}
use memory_pack_cpp.Writer.{Write, append_bytes}
use memory_pack_cpp.Writer.Headers.{write_null_object_header}
use memory_pack_cpp.Writer.Strings.{write_string, write_null_string}
use memory_pack_cpp.Format.{Formatter, Kind, object, string}

-- NullableLayout<T>::Size for a T of `size` bytes aligned to its size.
abbrev pub nullable_size : ℕ → ℕ
nullable_size size = size + size

-- void WriteNullable(const std::optional<T>& v), for an arithmetic T or an enum.
unfoldable pub write_nullable : ℕ → Option ℕ → Write
write_nullable size none = append_bytes (0 ∷ replicate (nullable_size size - 1) 0)
write_nullable size (some v) = append_bytes (1 ∷ (replicate (size - 1) 0 ++ to_le size v))

abbrev pub nullable_value_of : ℕ → List ℕ → Option ℕ
nullable_value_of size src =
    if first_byte src == 0 then none else some (from_le (take size (drop size src)))

-- std::optional<T> ReadNullable()
unfoldable pub read_nullable : ℕ → Read (Option ℕ)
read_nullable size = do
  enough ← ensure_bytes (nullable_size size)
  if enough
      then (do src ← take_bytes (nullable_size size); pure (nullable_value_of size src))
      else pure none

-- MemoryPackFormatter<std::optional<T>> where the null encoding of T is NullableValue.
abbrev pub nullable_formatter : ℕ → Formatter (Option ℕ)
nullable_formatter size = record {
  kind = object;
  init = none;
  serialize = write_nullable size;
  deserialize = λ _. read_nullable size;
}

-- The same where it is String.
unfoldable pub write_optional_text : Option (List ℕ) → Write
write_optional_text none = write_null_string
write_optional_text (some s) = write_string s

abbrev pub optional_string_formatter : Formatter (Option (List ℕ))
optional_string_formatter = record {
  kind = object;
  init = none;
  serialize = write_optional_text;
  deserialize = λ _. read_string;
}

module _ {A : Type 0} (F : Formatter A) where
  -- The same where it is Object, as for std::unique_ptr<T> and std::shared_ptr<T> with any T.
  unfoldable pub write_reference : Option A → Write
  write_reference none = write_null_object_header
  write_reference (some v) = F.serialize v

  unfoldable pub read_reference : Read (Option A)
  read_reference = do
    is_null ← peek_is_null
    if is_null then (do _ ← read_byte; pure none) else (do v ← F.deserialize F.init; pure (some v))

  abbrev pub reference_formatter : Formatter (Option A)
  reference_formatter = record {
    kind = object;
    init = none;
    serialize = write_reference;
    deserialize = λ _. read_reference;
  }
