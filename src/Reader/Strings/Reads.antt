-- ===== src/Reader/Strings/Reads.antt =====
-- include/memorypack/core.hpp, MemoryPackReader: strings read off their encodings.
use memory_pack_cpp.Base.{
  ℕ, ◌+◌, ◌*◌, ◌≤◌, ◌<◌, ◌^◌, ◌≡◌, refl, true, List, [], ◌∷◌, ◌++◌, length, if◌then◌else◌, to_le,
  none, some, arith, le→ltb, le→leb, ne→==false,
}
use memory_pack_cpp.Outcome.{returned, ◌>>=◌}
use memory_pack_cpp.Reader.{Reader, Read, take_bytes, remaining}
use memory_pack_cpp.Reader.Safe.{remaining_lem}
use memory_pack_cpp.Reader.Reads.{
  Ready, Reads, Ahead, advanced, Ahead-bound, Reads-bind, Reads-pure, Reads-map, checked-Reads,
  take_bytes-Reads, is_failed-Reads,
}
use memory_pack_cpp.Reader.Headers.{read_raw, null_collection}
use memory_pack_cpp.Reader.Headers.Reads.{read_raw-Reads, read_raw-Reads_any, test_of_fits}
use memory_pack_cpp.Reader.Strings.{check_string_length, read_utf8_payload, read_string}
use memory_pack_cpp.Wire.{complement, string_wire}
use memory_pack_cpp.Text.{utf16_length_from_utf8}

module _ {levels : ℕ} where
  check_string_length-Reads :
      (n unit : ℕ) (r : Reader)
      → Ready levels r
      → n < 2 ^ 31
      → r.pos + n * unit ≤ length r.bytes
      → check_string_length n unit r ≡ returned true r
  unfolding check_string_length
  check_string_length-Reads n unit r ready h fits =
      let left : n * unit ≤ remaining r = omega (arith, remaining_lem r ready.valid) in
      rw (
        le→ltb r.options.max_string_length n (omega (arith, ready.strings)),
        test_of_fits unit n (remaining r) left,
      )

  -- A payload of plausible length goes on to its reading.
  pub checked_string-Reads :
      {A : Type 0} (n unit : ℕ) (m d : Read A) (wire : List ℕ) {a : A}
      → n < 2 ^ 31
      → n * unit ≤ length wire
      → Reads levels m wire a
      → Reads levels (check_string_length n unit >>= λ plausible. if plausible then m else d) wire a
  checked_string-Reads n unit m d wire h fits k r rest ready ahead =
      rw
        (check_string_length-Reads n unit r ready h
          (omega (arith, fits, Ahead-bound r wire rest ready.valid ahead)))
        (k r rest ready ahead)

  read_utf8_payload-Reads :
      {A : Type 0} (units : ℕ) (s : List ℕ) (d : A) (f : List ℕ → A)
      → length s < 2 ^ 31
      → Reads levels (read_utf8_payload (length s) d f) (to_le 4 units ++ s) (f s)
  unfolding read_utf8_payload
  read_utf8_payload-Reads units s d f h =
      Reads-bind (read_raw 4) _ (to_le 4 units) s (read_raw-Reads_any 4 (to_le 4 units) refl) (
        checked_string-Reads (length s) 1 _ _ s h (omega arith) (
          checked-Reads (length s) _ _ s (omega arith)
            (Reads-map (take_bytes (length s)) f s (take_bytes-Reads (length s) s refl))))

  -- A string comes back from its UTF-8 encoding, byte by byte.
  -- `ReadString` takes the encoding of a string of less than 2^31 bytes off the front of the unread
  -- input, gives the string, and moves just past the encoding. The reader has no error, and its
  -- limits allow every int32 length.
  pub read_string-Reads :
      (s : List ℕ)
      → length s < 2 ^ 31
      → (r : Reader) (rest : List ℕ) → Ready levels r
      → Ahead r (string_wire s) rest
      → read_string r ≡ returned (some s) (advanced (length (string_wire s)) r)
  unfolding read_string string_wire
  read_string-Reads [] h =
      Reads-bind (read_raw 4) _ (to_le 4 0) [] (read_raw-Reads 4 0 (omega arith))
        (is_failed-Reads _ [] (Reads-pure (some [])))
  read_string-Reads (c ∷ cs) h =
      let n = length (c ∷ cs) in
      let header = complement n in
      let e : complement header ≡ n = omega arith in
      let payload : List ℕ = to_le 4 (utf16_length_from_utf8 (c ∷ cs)) ++ (c ∷ cs) in
      Reads-bind (read_raw 4) _ (to_le 4 header) payload (read_raw-Reads 4 header (omega arith)) (
        is_failed-Reads _ payload (
          rw
            (
              ne→==false header null_collection (omega arith),
              ne→==false header 0 (omega arith),
              le→leb (2 ^ 31) header (omega arith),
              e,
            )
            (read_utf8_payload-Reads (utf16_length_from_utf8 (c ∷ cs)) (c ∷ cs) (some []) some h)))

  pub read_null_string-Reads : Reads levels read_string (to_le 4 null_collection) none
  unfolding read_string
  read_null_string-Reads =
      Reads-bind (read_raw 4) _ (to_le 4 null_collection) []
        (read_raw-Reads 4 null_collection (omega arith)) (is_failed-Reads _ [] (Reads-pure none))
