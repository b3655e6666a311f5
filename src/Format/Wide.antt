-- ===== src/Format/Wide.antt =====
-- include/memorypack/core.hpp: the formatter of std::u16string. A char16_t is its code.
use memory_pack_cpp.Base.{ℕ, ◌<◌, ◌^◌, ◌≡◌, List, [], ◌∷◌, length, Option, none, some, arith, to_le}
use memory_pack_cpp.Outcome.{returned, pure, ◌>>=◌}
use memory_pack_cpp.Reader.{Reader, Read}
use memory_pack_cpp.Reader.Safe.{Safe-bind, Safe-pure}
use memory_pack_cpp.Reader.Reads.{Ready, Ahead, advanced, Reads-map}
use memory_pack_cpp.Reader.Strings.{read_string}
use memory_pack_cpp.Reader.Strings.Safe.{read_string-Safe}
use memory_pack_cpp.Reader.Strings.Reads.{read_string-Reads}
use memory_pack_cpp.Reader.Strings.Utf16.{read_string-utf16}
use memory_pack_cpp.Writer.Strings.{write_string_utf16, write_string_utf16-Writes}
use memory_pack_cpp.Wire.{string_wire, string_utf16_wire}
use memory_pack_cpp.Text.{utf16_from_utf8}
use memory_pack_cpp.Text.Transcode.{IsUtf16, utf16_from_utf8-code_points}
use memory_pack_cpp.Format.{
  Formatter, Lawful, IsSafe, u16string, min_encoded_size, container_min_size,
}

-- v.clear(), and the transcoding where there is a string.
abbrev pub transcoded : Option (List ℕ) → List ℕ
transcoded none = []
transcoded (some u8) = utf16_from_utf8 u8

-- Deserialize of MemoryPackFormatter<std::u16string>
unfoldable pub read_u16string : Read (List ℕ)
read_u16string = do s ← read_string; pure (transcoded s)

-- MemoryPackFormatter<std::u16string>
abbrev pub u16string_formatter : Formatter (List ℕ)
u16string_formatter = record {
  kind = u16string;
  init = [];
  serialize = write_string_utf16;
  deserialize = λ _. read_u16string;
}

pub u16string-IsSafe : IsSafe u16string_formatter
unfolding read_u16string
u16string-IsSafe old = Safe-bind read_string-Safe (λ s. Safe-pure (transcoded s))

-- Reading a std::u16string takes the UTF-16 encoding of a text off the front of the unread input and
-- gives the same units back, although `ReadString` turns them into UTF-8 between. The text's
-- surrogates come in pairs, it has less than 2^31 units, and the reader has no error and limits that
-- allow every int32 length.
pub read_u16string-Reads :
    {levels : ℕ} (us : List ℕ)
    → IsUtf16 us
    → length us < 2 ^ 31
    → (r : Reader) (rest : List ℕ) → Ready levels r
    → Ahead r (string_utf16_wire us) rest
    → read_u16string r ≡ returned us (advanced (length (string_utf16_wire us)) r)
unfolding read_u16string string_utf16_wire string_wire utf16_from_utf8
read_u16string-Reads {levels} [] ok h =
    Reads-map read_string transcoded (to_le 4 0) (read_string-Reads {levels = levels} [] h)
read_u16string-Reads {levels} (u ∷ us) ok h = rw (utf16_from_utf8-code_points (u ∷ us) ok) at (
    Reads-map read_string transcoded (string_utf16_wire (u ∷ us))
      (read_string-utf16 {levels = levels} (u ∷ us) ok (omega arith) h))

unfoldable pub u16string-Lawful : Lawful u16string_formatter
unfolding min_encoded_size container_min_size string_utf16_wire
u16string-Lawful = record {
  wire = string_utf16_wire;
  IsEncodable = λ us. IsUtf16 us × (length us < 2 ^ 31);
  levels = 0;
  writes = λ us h. write_string_utf16-Writes us h.1;
  reads = λ n old us _ h. read_u16string-Reads {levels = n} us h.0 h.1;
  large = λ us h. (omega arith, omega arith);
}
