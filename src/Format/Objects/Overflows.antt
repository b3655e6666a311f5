-- ===== src/Format/Objects/Overflows.antt =====
-- include/memorypack/core.hpp, MEMORYPACK_DEFINE: the writing of an object into a caller's buffer that
-- is too small.
use memory_pack_cpp.Base.{
  ◌++◌, ℕ, ◌≤◌, ◌<◌, ◌^◌, ◌≡◌, List, some, arith, to_le, le→ltb, [], ◌∷◌, length,
}
use memory_pack_cpp.Writer.Overflows.{
  append_bytes-Overflows, Overflows, Overflows-nothing, Overflows-then, write_raw-Overflows,
  write_object_header-Overflows,
}
use memory_pack_cpp.Writer.Headers.{write_raw, write_object_header, to_int32_length}
use memory_pack_cpp.Writer.Strings.{write_string}
use memory_pack_cpp.Wire.{string_wire, complement}
use memory_pack_cpp.Text.{utf16_length_from_utf8}
use memory_pack_cpp.Writer.Headers.Writes.{write_raw-Writes, write_object_header-Writes}
use memory_pack_cpp.Format.{Formatter, Lawful}
use memory_pack_cpp.Format.Primitives.{
  number_formatter, number-Lawful, string_formatter, string-Lawful,
}
use memory_pack_cpp.Format.Objects.{Member, write_members, serialize_object, object_formatter}
use memory_pack_cpp.Format.Objects.Laws.{
  AllLawful, MembersEncodable, members_wire, full_wire, object-Lawful, assign,
}

-- Each encoding of a value is written so that an overflow is recorded.
abbrev pub CanOverflow : {A : Type 0} (F : Formatter A) → Lawful F → Type 0
CanOverflow {A} F L = (v : A) → L.IsEncodable v → Overflows (F.serialize v) (L.wire v)

pub number-CanOverflow :
    (size : ℕ) (some_bytes : 0 < size)
    → CanOverflow (number_formatter size) (number-Lawful size some_bytes)
unfolding number-Lawful
number-CanOverflow size some_bytes v h = write_raw-Overflows size v

write_string-Overflows :
    (s : List ℕ) → length s < 2 ^ 31 → Overflows (write_string s) (string_wire s)
unfolding write_string string_wire to_int32_length
write_string-Overflows [] h = write_raw-Overflows 4 0
write_string-Overflows (c ∷ cs) h =
    let n = length (c ∷ cs) in
    let units = utf16_length_from_utf8 (c ∷ cs) in
    rw (le→ltb 0x7FFFFFFF n (omega arith)) (
      Overflows-then (write_raw 4 (complement n)) _ (to_le 4 (complement n))
        (to_le 4 units ++ (c ∷ cs)) (write_raw-Writes 4 (complement n))
        (write_raw-Overflows 4 (complement n))
        (Overflows-then (write_raw 4 units) _ (to_le 4 units) (c ∷ cs) (write_raw-Writes 4 units)
          (write_raw-Overflows 4 units) (append_bytes-Overflows (c ∷ cs))))

pub string-CanOverflow : CanOverflow string_formatter string-Lawful
unfolding string-Lawful
string-CanOverflow = write_string-Overflows

module _ {T : Type 0} where
  abbrev pub AllOverflow : (ms : List (Member T)) → AllLawful ms → Type 0
  AllOverflow [] L = Unit {0}
  AllOverflow (m ∷ ms) L = CanOverflow m.format L.0 × AllOverflow ms L.1

  write_members-Overflows :
      (ms : List (Member T)) (L : AllLawful ms) (v : T)
      → AllOverflow ms L
      → MembersEncodable ms L v
      → Overflows (write_members ms v) (members_wire ms L v)
  unfolding write_members
  write_members-Overflows [] L v over h = Overflows-nothing
  write_members-Overflows (m ∷ ms) L v over h =
      Overflows-then (m.format.serialize (m.get v)) (write_members ms v) (L.0.wire (m.get v))
        (members_wire ms L.1 v) (L.0.writes (m.get v) h.0) (over.0 (m.get v) h.0)
        (write_members-Overflows ms L.1 v over.1 h.1)

  pub serialize_object-Overflows :
      (ms : List (Member T)) (L : AllLawful ms) (v : T)
      → AllOverflow ms L
      → length ms ≤ 249
      → MembersEncodable ms L v
      → Overflows (serialize_object ms (some v)) (full_wire ms L v)
  unfolding serialize_object
  serialize_object-Overflows ms L v over few h =
      Overflows-then (write_object_header (length ms)) (write_members ms v) (length ms ∷ [])
        (members_wire ms L v) (write_object_header-Writes (length ms) few)
        (write_object_header-Overflows (length ms) few) (write_members-Overflows ms L v over h)

  -- Objects can stand in objects.
  pub object-CanOverflow :
      (init : T) (ms : List (Member T)) (L : AllLawful ms) (few : length ms ≤ 249)
      (rebuild : (v old : T) → assign ms v old ≡ v)
      → AllOverflow ms L
      → CanOverflow (object_formatter init ms) (object-Lawful init ms L few rebuild)
  unfolding object-Lawful
  object-CanOverflow init ms L few rebuild over v h = serialize_object-Overflows ms L v over few h
