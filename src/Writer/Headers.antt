-- ===== src/Writer/Headers.antt =====
-- include/memorypack/core.hpp, MemoryPackWriter: primitives, headers and length markers. A signed
-- number is its bit pattern, and the host is little-endian, so `endian_convert` changes nothing.
pub mod Writes
use memory_pack_cpp.Base.{
  ℕ, ◌≤◌, ◌<◌, ◌^◌, Bool, true, false, List, [], ◌∷◌, ltb, leb, if◌then◌else◌, to_le, Option, none,
  some,
}
use memory_pack_cpp.Outcome.{length_limit, invalid_header, Action, returned, pure, ◌>>=◌, ◌>>◌}
use memory_pack_cpp.Writer.{Writer, Write, fail, append_byte, append_bytes}
use memory_pack_cpp.Reader.Headers.{
  null_object, wide_tag, max_member_count, null_collection, varint_max_single, varint_uint16_tag,
  varint_uint32_tag,
}

-- void WriteRaw(T value), for a `w`-byte T: the bytes of its object representation.
unfoldable pub write_raw : ℕ → ℕ → Write
write_raw w v = append_bytes (to_le w v)

-- void WriteObjectHeader(uint8_t memberCount)
unfoldable pub write_object_header : ℕ → Write
write_object_header member_count =
    if ltb max_member_count member_count then fail invalid_header else append_byte member_count

unfoldable pub write_null_object_header : Write
write_null_object_header = append_byte null_object

-- void WriteCollectionHeader(int32_t length)
unfoldable pub write_collection_header : ℕ → Write
unfolding write_raw
write_collection_header length = write_raw 4 length

unfoldable pub write_null_collection_header : Write
unfolding write_raw
write_null_collection_header = write_raw 4 null_collection

-- void WriteUnionHeader(uint16_t tag)
unfoldable pub write_union_header : ℕ → Write
unfolding write_raw
write_union_header tag =
    if ltb tag wide_tag then append_byte tag else (do append_byte wide_tag; write_raw 2 tag)

unfoldable pub write_null_union_header : Write
write_null_union_header = append_byte null_object

-- void WriteBool(bool v)
unfoldable pub write_bool : Bool → Write
write_bool v = append_byte (if v then 1 else 0)

-- void WriteVarIntLength(uint32_t value)
unfoldable pub write_varint_length : ℕ → Write
unfolding write_raw
write_varint_length value =
    if leb value varint_max_single
    then append_byte value
    else if leb value 0xFFFF
    then (do append_byte varint_uint16_tag; write_raw 2 value)
    else (do append_byte varint_uint32_tag; write_raw 4 value)

-- int32_t ToInt32Length(size_t size): `none` stands for its -1, which callers return on.
unfoldable pub to_int32_length : ℕ → Action Writer (Option ℕ)
unfolding fail
to_int32_length size =
    if ltb 0x7FFFFFFF size then (do fail length_limit; pure none) else pure (some size)

-- `if (n < 0) return;`
abbrev pub if_length : Option ℕ → (ℕ → Write) → Write
if_length none k = pure tt
if_length (some n) k = k n
