-- ===== src/Wire.antt =====
-- docs/wire-format.md: the bytes of headers and lengths, as the format defines them.
use memory_pack_cpp.Base.{
  ℕ, ◌^◌, List, [], ◌∷◌, ltb, leb, if◌then◌else◌, to_le, Bool, true, false, ◌++◌, ◌-◌, length,
}
use memory_pack_cpp.Text.{utf16_length_from_utf8}

abbrev pub bool_byte : Bool → ℕ
bool_byte true = 1
bool_byte false = 0

-- One byte for a tag below 250, else the byte 250 and two bytes.
unfoldable pub union_wire : ℕ → List ℕ
union_wire tag = if ltb tag 250 then tag ∷ [] else 250 ∷ to_le 2 tag

-- One byte up to 127, else a marker and two or four bytes.
unfoldable pub member_length_wire : ℕ → List ℕ
member_length_wire n =
    if leb n 127 then n ∷ [] else if leb n 0xFFFF then 0x84 ∷ to_le 2 n else 0x82 ∷ to_le 4 n

-- ~v of a 32-bit number.
abbrev pub complement : ℕ → ℕ
complement v = 2 ^ 32 - 1 - v

-- The wire format of a UTF-8 string, docs/wire-format.md.
unfoldable pub string_wire : List ℕ → List ℕ
string_wire [] = to_le 4 0
string_wire (c ∷ cs) =
    to_le 4 (complement (length (c ∷ cs)))
    ++ (to_le 4 (utf16_length_from_utf8 (c ∷ cs)) ++ (c ∷ cs))

unfoldable pub units_wire : List ℕ → List ℕ
units_wire [] = []
units_wire (c ∷ cs) = to_le 2 c ++ units_wire cs

unfoldable pub string_utf16_wire : List ℕ → List ℕ
unfolding units_wire
string_utf16_wire s = to_le 4 (length s) ++ units_wire s
