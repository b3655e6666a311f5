-- ===== src/Text.antt =====
-- include/memorypack/core.hpp: UTF-8 and UTF-16 helpers. Where the source joins bit fields that
-- do not overlap by `|`, the model adds them, and a mask test of a byte is the range it stands for.
pub mod Units
pub mod Transcode
use memory_pack_cpp.Base.{
  ℕ, zero, suc, ◌+◌, ◌-◌, ◌*◌, ◌/◌, ◌%◌, ◌^◌, Bool, true, false, List, [], ◌∷◌, ◌++◌, length, take,
  drop, ltb, leb, ◌≡◌, refl, ◌&&◌, ◌||◌, if◌then◌else◌,
}

-- (b & 0xC0) == 0x80
abbrev pub is_continuation : ℕ → Bool
is_continuation b = leb 0x80 b && ltb b 0xC0

-- The byte loop of utf16_length_from_utf8.
unfoldable pub count_units : List ℕ → ℕ → ℕ
count_units [] units = units
count_units (b ∷ bs) units =
    count_units bs
      (if is_continuation b then units else if leb 0xF0 b then units + 2 else units + 1)

-- block & 0x8080808080808080, for the block of the bytes: some byte has its top bit.
abbrev pub has_high_bit : List ℕ → Bool
has_high_bit [] = false
has_high_bit (b ∷ bs) = leb 0x80 b || has_high_bit bs

-- The loop over blocks of 8 bytes, and the byte loop on what it leaves.
unfoldable pub count_blocks : List ℕ → ℕ → ℕ
count_blocks (b0 ∷ b1 ∷ b2 ∷ b3 ∷ b4 ∷ b5 ∷ b6 ∷ b7 ∷ rest) units =
    let block = b0 ∷ b1 ∷ b2 ∷ b3 ∷ b4 ∷ b5 ∷ b6 ∷ b7 ∷ [] in
    let next = count_blocks rest (units + 8) in
    if has_high_bit block then count_units (block ++ rest) units else next
count_blocks bytes units = count_units bytes units

-- int32_t utf16_length_from_utf8(const char* data, size_t len)
unfoldable pub utf16_length_from_utf8 : List ℕ → ℕ
unfolding count_blocks
utf16_length_from_utf8 bytes = count_blocks bytes 0

-- The bytes that append_utf8_codepoint appends for a code point.
unfoldable pub utf8 : ℕ → List ℕ
utf8 cp =
    if leb cp 0x7F
    then cp ∷ []
    else if leb cp 0x7FF
    then (0xC0 + cp / 2 ^ 6) ∷ (0x80 + cp % 2 ^ 6) ∷ []
    else if leb cp 0xFFFF
    then (0xE0 + cp / 2 ^ 12) ∷ (0x80 + cp / 2 ^ 6 % 2 ^ 6) ∷ (0x80 + cp % 2 ^ 6) ∷ []
    else (0xF0 + cp / 2 ^ 18)
      ∷ (0x80 + cp / 2 ^ 12 % 2 ^ 6)
      ∷ (0x80 + cp / 2 ^ 6 % 2 ^ 6)
      ∷ (0x80 + cp % 2 ^ 6)
      ∷ []

-- void append_utf8_codepoint(std::string& out, uint32_t cp)
unfoldable pub append_utf8_codepoint : List ℕ → ℕ → List ℕ
unfolding utf8
append_utf8_codepoint out cp = out ++ utf8 cp

-- The code units that the UTF-16 transcoder pushes for a code point.
unfoldable pub utf16 : ℕ → List ℕ
utf16 cp =
    if leb cp 0xFFFF
    then cp ∷ []
    else (0xD800 + (cp - 0x10000) / 2 ^ 10) % 2 ^ 16 ∷ (0xDC00 + (cp - 0x10000) % 2 ^ 10) ∷ []

-- The low six bits of each further byte are shifted in.
abbrev pub shift_in : ℕ → List ℕ → ℕ
shift_in cp [] = cp
shift_in cp (b ∷ bs) = shift_in (cp * 2 ^ 6 + b % 2 ^ 6) bs

-- The first byte of a sequence gives its length and its first bits.
abbrev pub lead_length : ℕ → ℕ
lead_length b =
    if ltb b 0x80
    then 1
    else if leb 0xC0 b && ltb b 0xE0
    then 2
    else if leb 0xE0 b && ltb b 0xF0
    then 3
    else 4

abbrev pub lead_bits : ℕ → ℕ
lead_bits b =
    if ltb b 0x80
    then b
    else if leb 0xC0 b && ltb b 0xE0
    then b % 2 ^ 5
    else if leb 0xE0 b && ltb b 0xF0
    then b % 2 ^ 4
    else b % 2 ^ 3

abbrev pub is_high_surrogate : ℕ → Bool
is_high_surrogate u = leb 0xD800 u && leb u 0xDBFF

abbrev pub is_low_surrogate : ℕ → Bool
is_low_surrogate u = leb 0xDC00 u && leb u 0xDFFF

-- The shift and the `|` do not overlap, so the `|` is a sum.
abbrev pub surrogate_pair : ℕ → ℕ → ℕ
surrogate_pair hi lo = 0x10000 + ((hi - 0xD800) * 2 ^ 10 + (lo - 0xDC00))

-- What UTF-16 units stand for, by the Unicode definition: a pair is one code point, and an unpaired
-- surrogate is replaced by U+FFFD.
unfoldable pub code_points : List ℕ → List ℕ
code_points [] = []
code_points (u ∷ []) = (if is_high_surrogate u || is_low_surrogate u then 0xFFFD else u) ∷ []
code_points (u ∷ v ∷ rest) =
    let paired = surrogate_pair u v ∷ code_points rest in
    let others = code_points (v ∷ rest) in
    if is_high_surrogate u
    then (if is_low_surrogate v then paired else 0xFFFD ∷ others)
    else (if is_low_surrogate u then 0xFFFD else u) ∷ others

-- The UTF-8 text of code points.
unfoldable pub utf8_text : List ℕ → List ℕ
unfolding utf8
utf8_text [] = []
utf8_text (cp ∷ cps) = utf8 cp ++ utf8_text cps

-- The loop that transcodes UTF-8 to UTF-16. A sequence that the text cuts off ends it. Each round
-- takes a byte at least.
unfoldable pub transcode : ℕ → List ℕ → List ℕ
unfolding utf16
transcode zero bytes = []
transcode (suc fuel) [] = []
transcode (suc fuel) (b0 ∷ rest) =
    let more = lead_length b0 - 1 in
    let units = utf16 (shift_in (lead_bits b0) (take more rest)) in
    let others = transcode fuel (drop more rest) in
    if ltb (length rest) more then [] else units ++ others

unfoldable pub utf16_from_utf8 : List ℕ → List ℕ
unfolding transcode
utf16_from_utf8 bytes = transcode (length bytes) bytes
