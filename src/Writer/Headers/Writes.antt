-- ===== src/Writer/Headers/Writes.antt =====
-- include/memorypack/core.hpp, MemoryPackWriter: headers and primitives produce the bytes of the
-- wire format.
use memory_pack_cpp.Base.{
  ℕ, ◌≤◌, ◌<◌, ◌^◌, Bool, true, false, List, [], ◌∷◌, ltb, leb, if◌then◌else◌, to_le, arith, le→ltb,
}
use memory_pack_cpp.Outcome.{◌>>=◌}
use memory_pack_cpp.Writer.{Write, append_byte, append_bytes}
use memory_pack_cpp.Writer.Appends.{Writes, Writes-then, append_byte-Writes, append_bytes-Writes}
use memory_pack_cpp.Writer.Headers.{
  write_raw, write_object_header, write_collection_header, write_union_header, write_bool,
  write_varint_length, to_int32_length, if_length,
}
use memory_pack_cpp.Wire.{bool_byte, union_wire, member_length_wire}

pub write_raw-Writes : (w v : ℕ) → Writes (write_raw w v) (to_le w v)
unfolding write_raw
write_raw-Writes w v = append_bytes-Writes (to_le w v)

pub Writes-if :
    (b : Bool) (m n : Write) (front back : List ℕ)
    → Writes m front
    → Writes n back
    → Writes (if b then m else n) (if b then front else back)
Writes-if true m n front back h k = h
Writes-if false m n front back h k = k

pub write_object_header-Writes : (n : ℕ) → n ≤ 249 → Writes (write_object_header n) (n ∷ [])
unfolding write_object_header
write_object_header-Writes n h = rw (le→ltb 249 n h) (append_byte-Writes n)

pub write_bool-Writes : (b : Bool) → Writes (write_bool b) (bool_byte b ∷ [])
unfolding write_bool
write_bool-Writes true = append_byte-Writes 1
write_bool-Writes false = append_byte-Writes 0

pub write_union_header-Writes : (tag : ℕ) → Writes (write_union_header tag) (union_wire tag)
unfolding write_union_header union_wire
write_union_header-Writes tag =
    Writes-if (ltb tag 250) _ _ (tag ∷ []) (250 ∷ to_le 2 tag) (append_byte-Writes tag) (
      Writes-then (append_byte 250) (append_bytes (to_le 2 tag)) (250 ∷ []) (to_le 2 tag)
        (append_byte-Writes 250) (append_bytes-Writes (to_le 2 tag)))

pub write_varint_length-Writes : (n : ℕ) → Writes (write_varint_length n) (member_length_wire n)
unfolding write_varint_length member_length_wire
write_varint_length-Writes n = Writes-if (leb n 127) _ _ (n ∷ []) _ (append_byte-Writes n) (
    Writes-if (leb n 0xFFFF) _ _ (0x84 ∷ to_le 2 n) (0x82 ∷ to_le 4 n)
      (Writes-then (append_byte 0x84) (append_bytes (to_le 2 n)) (0x84 ∷ []) (to_le 2 n)
        (append_byte-Writes 0x84) (append_bytes-Writes (to_le 2 n)))
      (Writes-then (append_byte 0x82) (append_bytes (to_le 4 n)) (0x82 ∷ []) (to_le 4 n)
        (append_byte-Writes 0x82) (append_bytes-Writes (to_le 4 n))))

-- A length that an int32_t holds is passed on.
pub counted-Writes :
    (n : ℕ) (k : ℕ → Write) (wire : List ℕ)
    → n < 2 ^ 31
    → Writes (k n) wire
    → Writes (to_int32_length n >>= λ len. if_length len k) wire
unfolding to_int32_length
counted-Writes n k wire h written = rw (le→ltb 0x7FFFFFFF n (omega arith)) written

pub write_collection_header-Writes : (n : ℕ) → Writes (write_collection_header n) (to_le 4 n)
unfolding write_collection_header
write_collection_header-Writes n = append_bytes-Writes (to_le 4 n)
