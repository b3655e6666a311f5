-- ===== src/Writer/Strings.antt =====
-- include/memorypack/core.hpp, MemoryPackWriter: strings.
use memory_pack_cpp.Base.{ℕ, ◌^◌, ◌<◌, List, [], ◌∷◌, length, Option, none, some, to_le}
use memory_pack_cpp.Outcome.{pure, ◌>>=◌, ◌>>◌}
use memory_pack_cpp.Writer.{Write, append_bytes}
use memory_pack_cpp.Writer.Appends.{Writes, Writes-then, Writes-nothing, append_bytes-Writes}
use memory_pack_cpp.Writer.Headers.{write_raw, to_int32_length, if_length}
use memory_pack_cpp.Writer.Headers.Writes.{write_raw-Writes, counted-Writes}
use memory_pack_cpp.Reader.Headers.{null_collection}
use memory_pack_cpp.Text.{utf16_length_from_utf8}
use memory_pack_cpp.Wire.{complement, string_wire, units_wire, string_utf16_wire}

-- void WriteString(std::string_view s)
unfoldable pub write_string : List ℕ → Write
write_string [] = write_raw 4 0
write_string (c ∷ cs) = do
  byte_count ← to_int32_length (length (c ∷ cs))
  if_length byte_count λ n. do
    write_raw 4 (complement n)
    write_raw 4 (utf16_length_from_utf8 (c ∷ cs))
    append_bytes (c ∷ cs)

unfoldable pub write_null_string : Write
write_null_string = write_raw 4 null_collection

-- void WriteOptionalString(const std::optional<std::string>& s)
unfoldable pub write_optional_string : Option (List ℕ) → Write
unfolding write_string write_null_string
write_optional_string (some s) = write_string s
write_optional_string none = write_null_string

unfoldable pub write_units : List ℕ → Write
write_units [] = pure tt
write_units (c ∷ cs) = do write_raw 2 c; write_units cs

-- void WriteStringUtf16(std::u16string_view s)
unfoldable pub write_string_utf16 : List ℕ → Write
unfolding write_units
write_string_utf16 [] = write_raw 4 0
write_string_utf16 (c ∷ cs) = do
  units ← to_int32_length (length (c ∷ cs))
  if_length units λ n. do write_raw 4 n; write_units (c ∷ cs)

pub write_string-Writes : (s : List ℕ) → length s < 2 ^ 31 → Writes (write_string s) (string_wire s)
unfolding write_string string_wire
write_string-Writes [] h = write_raw-Writes 4 0
write_string-Writes (c ∷ cs) h = counted-Writes (length (c ∷ cs)) _ _ h (
    Writes-then (write_raw 4 (complement (length (c ∷ cs)))) _
      (to_le 4 (complement (length (c ∷ cs)))) _ (write_raw-Writes 4 _)
      (Writes-then (write_raw 4 (utf16_length_from_utf8 (c ∷ cs))) _
        (to_le 4 (utf16_length_from_utf8 (c ∷ cs))) (c ∷ cs) (write_raw-Writes 4 _)
        (append_bytes-Writes (c ∷ cs))))

write_units-Writes : (s : List ℕ) → Writes (write_units s) (units_wire s)
unfolding write_units units_wire
write_units-Writes [] = Writes-nothing
write_units-Writes (c ∷ cs) =
    Writes-then (write_raw 2 c) (write_units cs) (to_le 2 c) (units_wire cs) (write_raw-Writes 2 c)
      (write_units-Writes cs)

pub write_string_utf16-Writes :
    (s : List ℕ) → length s < 2 ^ 31 → Writes (write_string_utf16 s) (string_utf16_wire s)
unfolding write_string_utf16 string_utf16_wire
write_string_utf16-Writes [] h = write_raw-Writes 4 0
write_string_utf16-Writes (c ∷ cs) h = counted-Writes (length (c ∷ cs)) _ _ h (
    Writes-then (write_raw 4 (length (c ∷ cs))) (write_units (c ∷ cs)) (to_le 4 (length (c ∷ cs)))
      (units_wire (c ∷ cs)) (write_raw-Writes 4 _) (write_units-Writes (c ∷ cs)))
