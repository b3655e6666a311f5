-- ===== src/Reader/Strings/Utf16.antt =====
-- include/memorypack/core.hpp, MemoryPackReader::ReadUtf16String: UTF-16 text is read as the UTF-8 text
-- of its code points.
use memory_pack_cpp.Base.{
  ℕ, suc, ◌*◌, ◌<◌, ◌^◌, ◌≡◌, refl, true, false, List, [], ◌∷◌, ◌++◌, length, to_le, some, arith,
  append_assoc, append-nil, lt→leb, ne→==false,
}
use memory_pack_cpp.Outcome.{returned}
use memory_pack_cpp.Reader.{Reader}
use memory_pack_cpp.Reader.Reads.{
  Ready, Reads, Ahead, advanced, Reads-bind, Reads-pure, Reads-map, checked-Reads, is_failed-Reads,
}
use memory_pack_cpp.Reader.Headers.{read_raw, null_collection}
use memory_pack_cpp.Reader.Headers.Reads.{read_raw-Reads}
use memory_pack_cpp.Reader.Strings.{read_utf16_units, read_utf16_string, read_string}
use memory_pack_cpp.Reader.Strings.Reads.{checked_string-Reads}
use memory_pack_cpp.Wire.{units_wire, string_utf16_wire}
use memory_pack_cpp.Text.{
  append_utf8_codepoint, utf8, utf8_text, code_points, is_high_surrogate, is_low_surrogate,
  surrogate_pair,
}
use memory_pack_cpp.Text.Transcode.{
  IsUtf16, empty, unit, pair, code_points-unit, code_points-pair, high_range, low_range,
}

-- One more code point in front of the text that is read.
before_text :
    (out : List ℕ) (cp : ℕ) (cps : List ℕ)
    → append_utf8_codepoint out cp ++ utf8_text cps ≡ out ++ utf8_text (cp ∷ cps)
unfolding append_utf8_codepoint utf8_text
before_text out cp cps = append_assoc out (utf8 cp) (utf8_text cps)

length-units_wire : (us : List ℕ) → length (units_wire us) ≡ length us * 2
unfolding units_wire
length-units_wire [] = refl
length-units_wire (u ∷ us) = omega (arith, length-units_wire us)

module _ {levels : ℕ} where
  read_unit-Reads :
      (u : ℕ) (us out : List ℕ)
      → u < 0x10000
      → is_high_surrogate u ≡ false
      → is_low_surrogate u ≡ false
      → Reads levels
          (read_utf16_units (length us) (append_utf8_codepoint out u))
          (units_wire us)
          (append_utf8_codepoint out u ++ utf8_text (code_points us))
      → Reads levels
          (read_utf16_units (suc (length us)) out)
          (units_wire (u ∷ us))
          (out ++ utf8_text (code_points (u ∷ us)))
  unfolding read_utf16_units units_wire
  read_unit-Reads u [] out small high low next =
      rw (code_points-unit u [] high low, ← before_text out u (code_points []))
        (Reads-bind (read_raw 2) _ (to_le 2 u) [] (read_raw-Reads 2 u (omega arith))
          (rw (high, low) next))
  read_unit-Reads u (v ∷ us) out small high low next =
      rw (code_points-unit u (v ∷ us) high low, ← before_text out u (code_points (v ∷ us)))
        (Reads-bind (read_raw 2) _ (to_le 2 u) (units_wire (v ∷ us))
          (read_raw-Reads 2 u (omega arith)) (rw (high, low) next))

  read_pair-Reads :
      (hi lo : ℕ) (us out : List ℕ)
      → is_high_surrogate hi ≡ true
      → is_low_surrogate lo ≡ true
      → Reads levels
          (read_utf16_units (length us) (append_utf8_codepoint out (surrogate_pair hi lo)))
          (units_wire us)
          (append_utf8_codepoint out (surrogate_pair hi lo) ++ utf8_text (code_points us))
      → Reads levels
          (read_utf16_units (suc (suc (length us))) out)
          (units_wire (hi ∷ lo ∷ us))
          (out ++ utf8_text (code_points (hi ∷ lo ∷ us)))
  unfolding read_utf16_units units_wire
  read_pair-Reads hi lo us out high low next =
      let (h0, h1) = high_range hi high in
      let (l0, l1) = low_range lo low in
      rw
        (
          code_points-pair hi lo us high low,
          ← before_text out (surrogate_pair hi lo) (code_points us),
        )
        (Reads-bind (read_raw 2) _ (to_le 2 hi) (units_wire (lo ∷ us))
          (read_raw-Reads 2 hi (omega arith))
          (rw high (
            Reads-bind (read_raw 2) _ (to_le 2 lo) (units_wire us)
              (read_raw-Reads 2 lo (omega arith)) (rw low next))))

  read_utf16_units-Reads :
      {us : List ℕ} (out : List ℕ)
      → IsUtf16 us
      → Reads levels
          (read_utf16_units (length us) out)
          (units_wire us)
          (out ++ utf8_text (code_points us))
  unfolding read_utf16_units units_wire utf8_text code_points
  read_utf16_units-Reads out empty = rw (append-nil out) (Reads-pure out)
  read_utf16_units-Reads out (unit {u} {us} small high low rest) =
      read_unit-Reads u us out small high low
        (read_utf16_units-Reads (append_utf8_codepoint out u) rest)
  read_utf16_units-Reads out (pair {hi} {lo} {us} high low rest) =
      read_pair-Reads hi lo us out high low
        (read_utf16_units-Reads (append_utf8_codepoint out (surrogate_pair hi lo)) rest)

  read_utf16_string-Reads :
      (us : List ℕ)
      → IsUtf16 us
      → length us < 2 ^ 31
      → Reads levels (read_utf16_string (length us)) (units_wire us) (utf8_text (code_points us))
  unfolding read_utf16_string
  read_utf16_string-Reads us ok h =
      let size = length-units_wire us in
      checked_string-Reads (length us) 2 _ _ (units_wire us) h (omega (arith, size)) (
        checked-Reads (length us * 2) _ _ (units_wire us) (omega (arith, size))
          (read_utf16_units-Reads [] ok))

  -- `ReadString` takes the UTF-16 encoding of a text that is not empty off the front of the unread
  -- input, and gives the UTF-8 text of its code points. The text's surrogates come in pairs, it has
  -- less than 2^31 units, and the reader has no error and limits that allow every int32 length.
  pub read_string-utf16 :
      (us : List ℕ)
      → IsUtf16 us
      → 0 < length us
      → length us < 2 ^ 31
      → (r : Reader) (rest : List ℕ) → Ready levels r
      → Ahead r (string_utf16_wire us) rest
      → read_string r
        ≡ returned (some (utf8_text (code_points us))) (advanced (length (string_utf16_wire us)) r)
  unfolding read_string string_utf16_wire
  read_string-utf16 us ok some_units h =
      Reads-bind (read_raw 4) _ (to_le 4 (length us)) (units_wire us)
        (read_raw-Reads 4 (length us) (omega arith))
        (is_failed-Reads _ (units_wire us) (
          rw
            (
              ne→==false (length us) null_collection (omega arith),
              ne→==false (length us) 0 (omega arith),
              lt→leb (2 ^ 31) (length us) h,
            )
            (Reads-map (read_utf16_string (length us)) some (units_wire us)
              (read_utf16_string-Reads us ok h))))
