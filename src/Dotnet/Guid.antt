-- ===== src/Dotnet/Guid.antt =====
-- include/memorypack/dotnet.hpp, struct Guid: its text and its bytes. A char is its code.
pub mod Text
use memory_pack_cpp.Base.{
  ℕ, zero, suc, ◌+◌, ◌-◌, ◌*◌, ◌/◌, ◌%◌, ◌^◌, ◌<◌, ◌≡◌, refl, Bool, true, false, not, List, [], ◌∷◌,
  ◌++◌, length, take, drop, All, ltb, leb, ◌==◌, ◌&&◌, if◌then◌else◌, Option, none, some, to_le,
  from_le,
}
use memory_pack_cpp.Base.Options.{◌>>=◌}

-- struct Guid
pub record Guid : Type 0 where
  pub data1 : ℕ
  pub data2 : ℕ
  pub data3 : ℕ
  pub data4 : List ℕ

-- The ranges of uint32_t, uint16_t and std::array<uint8_t, 8>.
pub record IsValid (g : Guid) : Type 0 where
  pub data1_fits : g.data1 < 2 ^ 32
  pub data2_fits : g.data2 < 2 ^ 16
  pub data3_fits : g.data3 < 2 ^ 16
  pub data4_size : length g.data4 ≡ 8
  pub data4_fits : All (λ b. b < 256) g.data4

-- static Guid FromBytes(std::span<const uint8_t, 16> bytes)
unfoldable pub from_bytes : List ℕ → Guid
from_bytes bytes = record {
  data1 = from_le (take 4 bytes);
  data2 = from_le (take 2 (drop 4 bytes));
  data3 = from_le (take 2 (drop 6 bytes));
  data4 = take 8 (drop 8 bytes);
}

-- The lambda `hex` of Parse: the digit that a char stands for.
unfoldable pub hex : ℕ → Option ℕ
hex c =
    if leb 48 c && leb c 57
    then some (c - 48)
    else if leb 97 c && leb c 102
    then some (c - 97 + 10)
    else if leb 65 c && leb c 70
    then some (c - 65 + 10)
    else none

-- The loop of `readHex`.
unfoldable pub hex_value : List ℕ → ℕ → Option ℕ
unfolding hex
hex_value [] v = some v
hex_value (c ∷ cs) v = do d ← hex c; hex_value cs (v * 2 ^ 4 + d)

-- The lambda `readHex`, inside the text.
unfoldable pub read_hex : List ℕ → ℕ → ℕ → Option ℕ
unfolding hex_value
read_hex text at digits = hex_value (take digits (drop at text)) 0

-- The bytes that Parse reads from two digits each.
unfoldable pub read_hex_bytes : List ℕ → ℕ → ℕ → Option (List ℕ)
unfolding read_hex
read_hex_bytes text at zero = some []
read_hex_bytes text at (suc count) = do
  b ← read_hex text at 2
  bs ← read_hex_bytes text (at + 2) count
  some (b ∷ bs)

-- text[at] == '-'
abbrev pub is_dash : List ℕ → ℕ → Bool
is_dash text at = elim (drop at text) [ [] ↦ false | c ∷ _ ↦ c == 45 ]

-- static std::optional<Guid> Parse(std::string_view text)
unfoldable pub parse : List ℕ → Option Guid
unfolding read_hex_bytes
parse text =
    if not (length text == 36)
    then none
    else if not (is_dash text 8 && (is_dash text 13 && (is_dash text 18 && is_dash text 23)))
    then none
    else (do
      d1 ← read_hex text 0 8
      d2 ← read_hex text 9 4
      d3 ← read_hex text 14 4
      front ← read_hex_bytes text 19 2
      back ← read_hex_bytes text 24 6
      some (record { data1 = d1; data2 = d2; data3 = d3; data4 = front ++ back }))

abbrev pub hex_char : ℕ → ℕ
hex_char d = if ltb d 10 then 48 + d else 87 + d

-- What "%0<n>x" prints of a value with at most `n` digits.
abbrev pub hex_text : ℕ → ℕ → List ℕ
hex_text zero v = []
hex_text (suc n) v = hex_text n (v / 16) ++ (hex_char (v % 16) ∷ [])

-- "%02x" for each byte.
abbrev pub hex_bytes : List ℕ → List ℕ
hex_bytes [] = []
hex_bytes (b ∷ bs) = hex_text 2 b ++ hex_bytes bs

-- std::string ToString() const
unfoldable pub to_string : Guid → List ℕ
to_string g =
    hex_text 8 g.data1
    ++ (45
        ∷ (hex_text 4 g.data2
            ++ (45
                ∷ (hex_text 4 g.data3
                    ++ (45 ∷ (hex_bytes (take 2 g.data4) ++ (45 ∷ hex_bytes (drop 2 g.data4))))))))
