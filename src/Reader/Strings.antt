-- ===== src/Reader/Strings.antt =====
-- include/memorypack/core.hpp, MemoryPackReader: strings. A std::string is the list of its bytes.
pub mod Safe
pub mod Reads
pub mod Utf16
use memory_pack_cpp.Base.{
  ℕ, zero, suc, ◌+◌, ◌-◌, ◌*◌, ◌/◌, ◌%◌, ◌≤◌, ◌<◌, ◌^◌, Bool, true, false, List, [], ◌∷◌, ◌++◌, ltb,
  leb, ◌==◌, if◌then◌else◌, ◌&&◌, ◌||◌, not, Option, none, some,
}
use memory_pack_cpp.Outcome.{length_limit, Outcome, returned, pure, ◌>>=◌, ◌>>◌}
use memory_pack_cpp.Reader.{
  Reader, Read, fail, is_failed, ensure_bytes, take_bytes, remaining, get_position,
}
use memory_pack_cpp.Reader.Headers.{read_raw, is_negative, null_collection}
use memory_pack_cpp.Wire.{complement}
use memory_pack_cpp.Text.{
  append_utf8_codepoint, is_high_surrogate, is_low_surrogate, surrogate_pair,
}

-- bool CheckStringLength(uint32_t byteCount, size_t unitSize)
unfoldable pub check_string_length : ℕ → ℕ → Read Bool
check_string_length byte_count unit_size r =
    let reject : Outcome Reader Bool = (do fail length_limit; pure false) r in
    if ltb r.options.max_string_length byte_count
    then reject
    else if ltb 0 unit_size && ltb (remaining r / unit_size) byte_count
    then reject
    else returned true r

-- `pos_ -= 2`, with its wrap-around.
unfoldable pub step_back : Read (Unit {0})
step_back r = returned tt (record r { pos = (r.pos + 2 ^ 64 - 2) % 2 ^ 64 })

-- The loop of ReadUtf16String with `units` still to be read. A pair takes two of them; the
-- unpaired unit behind a high surrogate is read again.
unfoldable pub read_utf16_units : ℕ → List ℕ → Read (List ℕ)
read_utf16_units zero out = pure out
read_utf16_units (suc zero) out = do
  hi ← read_raw 2
  let cp = if is_high_surrogate hi || is_low_surrogate hi then 0xFFFD else hi
  pure (append_utf8_codepoint out cp)
read_utf16_units (suc (suc units)) out = do
  hi ← read_raw 2
  if is_high_surrogate hi
      then (do
        lo ← read_raw 2
        if is_low_surrogate lo
            then read_utf16_units units (append_utf8_codepoint out (surrogate_pair hi lo))
            else (do step_back; read_utf16_units (suc units) (append_utf8_codepoint out 0xFFFD)))
      else read_utf16_units (suc units)
          (append_utf8_codepoint out (if is_low_surrogate hi then 0xFFFD else hi))

-- std::string ReadUtf16String(int32_t utf16Length)
unfoldable pub read_utf16_string : ℕ → Read (List ℕ)
unfolding check_string_length read_utf16_units
read_utf16_string units = do
  plausible ← check_string_length units 2
  if plausible
      then (do
        enough ← ensure_bytes (units * 2)
        if enough then read_utf16_units units [] else pure [])
      else pure []

-- The UTF-8 branch of ReadString behind the header, and of ReadStringView.
unfoldable pub read_utf8_payload : {A : Type 0} → ℕ → A → (List ℕ → A) → Read A
unfolding check_string_length
read_utf8_payload byte_count on_error on_bytes = do
  _ ← read_raw 4
  plausible ← check_string_length byte_count 1
  if plausible
      then (do
        enough ← ensure_bytes byte_count
        if enough then (do bs ← take_bytes byte_count; pure (on_bytes bs)) else pure on_error)
      else pure on_error

-- std::optional<std::string> ReadString()
unfoldable pub read_string : Read (Option (List ℕ))
unfolding read_utf16_string read_utf8_payload
read_string = do
  header ← read_raw 4
  bad ← is_failed
  if bad
      then pure (some [])
      else if header == null_collection
      then pure none
      else if header == 0
      then pure (some [])
      else if not (is_negative header)
      then (do s ← read_utf16_string header; pure (some s))
      else read_utf8_payload (complement header) (some []) some

-- std::optional<std::string_view> ReadStringView(): a UTF-16 payload is left unread.
unfoldable pub read_string_view : Read (Option (List ℕ))
unfolding read_utf8_payload
read_string_view = do
  start ← get_position
  header ← read_raw 4
  bad ← is_failed
  if bad
      then pure none
      else if header == null_collection
      then pure none
      else if header == 0
      then pure (some [])
      else if not (is_negative header)
      then (λ r. returned none (record r { pos = start }))
      else read_utf8_payload (complement header) none some

-- bool ReadString(std::string& out): the text that `out` holds afterwards.
abbrev pub or_empty : Option (List ℕ) → List ℕ
or_empty none = []
or_empty (some s) = s

unfoldable pub read_string_into : Read (List ℕ)
unfolding read_string
read_string_into = do s ← read_string; pure (or_empty s)
