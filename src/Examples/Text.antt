-- ===== src/Examples/Text.antt =====
-- include/memorypack/core.hpp: texts with characters of one, three and four bytes.
use memory_pack_cpp.Base.{ℕ, ◌≡◌, refl, List, [], ◌∷◌, ◌++◌, length, true, arith}
use memory_pack_cpp.Outcome.{returned}
use memory_pack_cpp.Reader.{Reader, new_reader, default_options}
use memory_pack_cpp.Reader.Reads.{Ready, advanced}
use memory_pack_cpp.Wire.{string_utf16_wire}
use memory_pack_cpp.Format.Wide.{read_u16string, read_u16string-Reads}
use memory_pack_cpp.Text.Transcode.{IsUtf16, empty, unit, pair}
use memory_pack_cpp.Text.{utf16_from_utf8, utf16_length_from_utf8, count_blocks, count_units}

euro_and_clef :
    utf16_from_utf8 (0xE2 ∷ 0x82 ∷ 0xAC ∷ 0xF0 ∷ 0x9D ∷ 0x84 ∷ 0x9E ∷ [])
    ≡ 0x20AC ∷ 0xD834 ∷ 0xDD1E ∷ []
unfolding utf16_from_utf8
euro_and_clef = refl

clef_units :
    utf16_length_from_utf8 (0x41 ∷ 0xF0 ∷ 0x9D ∷ 0x84 ∷ 0x9E ∷ 0x41 ∷ 0x41 ∷ 0x41 ∷ 0x41 ∷ []) ≡ 7
unfolding utf16_length_from_utf8 count_blocks count_units
clef_units = refl

-- A letter and the treble clef, which is a pair of surrogates.
abbrev clef : List ℕ
clef = 0x41 ∷ 0xD834 ∷ 0xDD1E ∷ []

clef-IsUtf16 : IsUtf16 clef
clef-IsUtf16 = unit (omega arith) refl refl (pair refl refl empty)

read_u16string-Reads_example :
    let r : Reader = new_reader true default_options (string_utf16_wire clef ++ (9 ∷ [])) in
    read_u16string r ≡ returned clef (advanced (length (string_utf16_wire clef)) r)
unfolding string_utf16_wire
read_u16string-Reads_example =
    let r : Reader = new_reader true default_options (string_utf16_wire clef ++ (9 ∷ [])) in
    let ready : Ready 0 r = record {
      valid = record { in_bounds = omega arith; fits = omega arith };
      clean = refl;
      collections = omega arith;
      strings = omega arith;
      levels_left = omega arith;
      depth_fits = omega arith;
    } in
    read_u16string-Reads {levels = 0} clef clef-IsUtf16 (omega arith) r (9 ∷ []) ready refl
