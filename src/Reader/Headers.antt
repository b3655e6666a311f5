-- ===== src/Reader/Headers.antt =====
-- include/memorypack/core.hpp, MemoryPackReader: primitives, and the object, collection, union
-- and member-length headers. A signed number is its bit pattern.
pub mod Safe
pub mod Reads
use memory_pack_cpp.Base.{
  ℕ, ◌+◌, ◌-◌, ◌*◌, ◌/◌, ◌≤◌, ◌<◌, ◌^◌, ◌≡◌, Bool, true, false, not, List, [], ◌∷◌, length, ltb,
  leb, ◌==◌, if◌then◌else◌, ◌&&◌, from_le, Option, none, some, take, drop,
}
use memory_pack_cpp.Outcome.{
  length_limit, invalid_header, Outcome, returned, fault, pure, ◌>>=◌, ◌>>◌,
}
use memory_pack_cpp.Reader.{
  Reader, Read, fail, ensure_bytes, load, take_bytes, remaining, get_remaining,
}

-- Wire format constants.
abbrev pub null_object : ℕ
null_object = 255

abbrev pub wide_tag : ℕ
wide_tag = 250

abbrev pub max_member_count : ℕ
max_member_count = 249

-- -1 as an int32_t.
abbrev pub null_collection : ℕ
null_collection = 0xFFFFFFFF

abbrev pub varint_max_single : ℕ
varint_max_single = 127

abbrev pub varint_uint16_tag : ℕ
varint_uint16_tag = 0x84

abbrev pub varint_uint32_tag : ℕ
varint_uint32_tag = 0x82

-- An int32_t pattern below 0.
abbrev pub is_negative : ℕ → Bool
is_negative v = leb (2 ^ 31) v

abbrev pub first_byte : List ℕ → ℕ
first_byte [] = 0
first_byte (b ∷ bs) = b

-- uint8_t ReadByte()
unfoldable pub read_byte : Read ℕ
read_byte = do
  enough ← ensure_bytes 1
  if enough then (do bs ← take_bytes 1; pure (first_byte bs)) else pure 0

-- T ReadRaw(), for a `w`-byte T.
unfoldable pub read_raw : ℕ → Read ℕ
read_raw w = do
  enough ← ensure_bytes w
  if enough then (do bs ← take_bytes w; pure (from_le bs)) else pure 0

-- bool ReadBool()
unfoldable pub read_bool : Read Bool
read_bool = do b ← read_byte; pure (not (b == 0))

-- struct ObjectHeader
pub record ObjectHeader : Type 0 where
  pub count : ℕ
  pub is_null : Bool

abbrev pub null_header : ObjectHeader
null_header = record { count = 0; is_null = true }

-- ObjectHeader ReadObjectHeader()
unfoldable pub read_object_header : Read ObjectHeader
read_object_header = do
  b ← read_byte
  if b == null_object
      then pure null_header
      else if ltb max_member_count b
      then (do fail invalid_header; pure null_header)
      else pure (record { count = b; is_null = false })

-- bool PeekIsNull() const
unfoldable pub peek_is_null : Read Bool
peek_is_null = λ r.
    if leb (length r.bytes) r.pos
    then returned false r
    else (do bs ← load 1; pure (first_byte bs == null_object)) r

-- int32_t ReadCollectionHeader()
unfoldable pub read_collection_header : Read ℕ
read_collection_header = read_raw 4

-- The checks of ReadCollectionLength on the length `len` that was read.
unfoldable pub check_collection_length : ℕ → ℕ → Read ℕ
check_collection_length min_element_size len r =
    let reject : Outcome Reader ℕ = (do fail length_limit; pure null_collection) r in
    if is_negative len
    then (if not (len == null_collection) then reject else returned null_collection r)
    else if ltb r.options.max_collection_length len
    then reject
    else if ltb 0 min_element_size && ltb (remaining r / min_element_size) len
    then reject
    else returned len r

-- int32_t ReadCollectionLength(size_t minElementSize)
unfoldable pub read_collection_length : ℕ → Read ℕ
unfolding check_collection_length
read_collection_length min_element_size = do
  len ← read_raw 4
  check_collection_length min_element_size len

-- std::optional<uint16_t> ReadUnionHeader()
unfoldable pub read_union_header : Read (Option ℕ)
read_union_header = do
  b ← read_byte
  if b == null_object
      then pure none
      else if b == wide_tag
      then (do tag ← read_raw 2; pure (some tag))
      else if ltb wide_tag b
      then (do fail invalid_header; pure none)
      else pure (some b)

-- uint32_t ReadVarIntLength()
unfoldable pub read_varint_length : Read ℕ
read_varint_length = do
  b ← read_byte
  if leb b varint_max_single
      then pure b
      else if b == varint_uint16_tag
      then read_raw 2
      else if b == varint_uint32_tag
      then read_raw 4
      else (do fail invalid_header; pure 0)
