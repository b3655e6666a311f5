-- ===== src/Format/Unmanaged.antt =====
-- include/memorypack/core.hpp: trivially copyable structs, which are copied as they are in memory. A
-- value is the list of its bytes.
pub mod Padding
pub mod Collections
use memory_pack_cpp.Base.{
  ℕ, ◌+◌, ◌<◌, ◌≡◌, List, [], ◌∷◌, ◌++◌, length, take, drop, replicate, arith,
}
use memory_pack_cpp.Reader.{Read}
use memory_pack_cpp.Writer.{Write, append_bytes}
use memory_pack_cpp.Writer.Appends.{append_bytes-Writes}
use memory_pack_cpp.Format.{
  Formatter, Lawful, IsSafe, unmanaged, min_encoded_size, container_min_size,
}
use memory_pack_cpp.Format.Vectors.{read_block}
use memory_pack_cpp.Format.Vectors.Laws.{read_block-Safe, read_block-Reads}

-- void WriteUnmanaged(const T& value)
unfoldable pub write_unmanaged : List ℕ → Write
write_unmanaged value = append_bytes value

-- T ReadUnmanaged(), for a T of `size` bytes.
unfoldable pub read_unmanaged : ℕ → Read (List ℕ)
read_unmanaged size = read_block size (replicate size 0) (λ bs. bs)

-- MEMORYPACK_UNMANAGED(Type, ExpectedSize)
abbrev pub unmanaged_formatter : ℕ → Formatter (List ℕ)
unmanaged_formatter size = record {
  kind = unmanaged;
  init = replicate size 0;
  serialize = write_unmanaged;
  deserialize = λ _. read_unmanaged size;
}

pub unmanaged-IsSafe : (size : ℕ) → IsSafe (unmanaged_formatter size)
unfolding read_unmanaged
unmanaged-IsSafe size old = read_block-Safe size (replicate size 0) (λ bs. bs)

unfoldable pub unmanaged-Lawful : (size : ℕ) → 0 < size → Lawful (unmanaged_formatter size)
unfolding write_unmanaged read_unmanaged min_encoded_size container_min_size
unmanaged-Lawful size some_bytes = record {
  wire = λ value. value;
  IsEncodable = λ value. length value ≡ size;
  levels = 0;
  writes = λ value _. append_bytes-Writes value;
  reads =
      λ n old value _ e. read_block-Reads {levels = n} size (replicate size 0) (λ bs. bs) value e;
  large = λ value e. omega arith;
}

-- The offset of a member and its bytes.
abbrev pub Placed : Type 0
Placed = ℕ × List ℕ

-- MEMORYPACK_DETAIL_SCRUB_MEMBER for each member, on the zero-filled buffer.
unfoldable pub scrub : List Placed → List ℕ → List ℕ
scrub [] buffer = buffer
scrub (m ∷ ms) buffer = scrub ms (take m.0 buffer ++ (m.1 ++ drop (m.0 + length m.1) buffer))

-- Serialize of MEMORYPACK_UNMANAGED_SCRUBBED(Type, ExpectedSize, ...)
unfoldable pub write_scrubbed : ℕ → List Placed → Write
unfolding scrub
write_scrubbed size members = append_bytes (scrub members (replicate size 0))
