-- ===== src/Format.antt =====
-- include/memorypack/core.hpp, MemoryPackFormatter<T>: the dispatch that Write<T> and Read<T> go
-- through, as an interface, and what a formatter has to satisfy.
pub mod Primitives
pub mod Wide
pub mod Collections
pub mod Vectors
pub mod Arrays
pub mod Unmanaged
pub mod Steady
pub mod Objects
pub mod Unions
pub mod Maps
pub mod Sets
pub mod Nullable
pub mod Optionals
pub mod Tuples
use memory_pack_cpp.Base.{ℕ, zero, suc, ◌+◌, ◌*◌, ◌≤◌, ◌<◌, ◌^◌, ◌≡◌, List, [], ◌∷◌, ◌++◌, length}
use memory_pack_cpp.Reader.{Read}
use memory_pack_cpp.Reader.Safe.{Safe}
use memory_pack_cpp.Reader.Reads.{Reads}
use memory_pack_cpp.Writer.{Write}
use memory_pack_cpp.Writer.Appends.{Writes}

-- The kinds of type that MinEncodedSize, WireNullEncoding and the container formatters tell apart.
-- `arithmetic` carries the sizeof, and covers enums.
pub data Kind : Type 0 where
  arithmetic : ℕ → Kind
  string u16string collection unmanaged object : Kind

-- static constexpr size_t MinEncodedSize()
unfoldable pub min_encoded_size : Kind → ℕ
min_encoded_size (arithmetic n) = n
min_encoded_size string = 4
min_encoded_size _ = 1

-- The element size that the formatters of containers.hpp pass to ReadCollectionLength.
unfoldable pub container_min_size : Kind → ℕ
container_min_size (arithmetic n) = n
container_min_size _ = 1

-- enum class NullEncoding
pub data NullEncoding : Type 0 where
  object_null collection_null string_null nullable_value : NullEncoding

-- WireNullEncoding<T>::value
unfoldable pub wire_null_encoding : Kind → NullEncoding
wire_null_encoding (arithmetic n) = nullable_value
wire_null_encoding unmanaged = nullable_value
wire_null_encoding string = string_null
wire_null_encoding u16string = string_null
wire_null_encoding collection = collection_null
wire_null_encoding object = object_null

-- struct MemoryPackFormatter<T>. `init` is T{}; `deserialize` takes the value that its reference
-- argument holds and gives the value that it holds afterwards.
pub record Formatter (A : Type 0) : Type 0 where
  pub kind : Kind
  pub init : A
  pub serialize : A → Write
  pub deserialize : A → Read A

-- What makes a formatter correct: `wire` is the encoding of a value, which the writer produces and
-- the reader takes back off the front of any input. `levels` is how deep a value nests.
pub record Lawful {A : Type 0} (F : Formatter A) : Type 1 where
  pub wire : A → List ℕ
  pub IsEncodable : A → Type 0
  pub levels : ℕ
  pub writes : (v : A) → IsEncodable v → Writes (F.serialize v) (wire v)
  pub reads :
      (n : ℕ) (old v : A) → levels ≤ n → IsEncodable v → Reads n (F.deserialize old) (wire v) v
  pub large :
      (v : A)
      → IsEncodable v
      → (min_encoded_size F.kind ≤ length (wire v)) × (container_min_size F.kind ≤ length (wire v))

-- What makes a formatter safe on input that nobody vouches for.
abbrev pub IsSafe : {A : Type 0} → Formatter A → Type 0
IsSafe {A} F = (old : A) → Safe (F.deserialize old)
