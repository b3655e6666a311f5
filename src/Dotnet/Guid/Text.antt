-- ===== src/Dotnet/Guid/Text.antt =====
-- include/memorypack/dotnet.hpp, Guid::Parse and Guid::ToString.
use memory_pack_cpp.Base.{
  ℕ, zero, suc, ◌+◌, ◌*◌, ◌/◌, ◌%◌, ◌^◌, ◌<◌, ◌≡◌, ◌∙◌, ap, List, [], ◌∷◌, ◌++◌, some, arith,
  Option-cases, inl, inr,
}
use mathlib.Core.Option.{some_inj, none-ne-some}
use native.Mathlib.Nat.{pow-suc}
use memory_pack_cpp.Dotnet.Guid.{
  Guid, IsValid, hex, hex_value, parse, hex_char, hex_text, to_string,
}

hex-hex_char : (d : ℕ) → d < 16 → hex (hex_char d) ≡ some d
unfolding hex
hex-hex_char d h = ground arith

-- The value of digits is the value of the front, continued with the digits behind it.
hex_value-append :
    (front back : List ℕ) (v w : ℕ)
    → hex_value front v ≡ some w
    → hex_value (front ++ back) v ≡ hex_value back w
unfolding hex_value
hex_value-append [] back v w e = ap (λ (u : ℕ). hex_value back u) (some_inj.0 e)
hex_value-append (c ∷ cs) back v w e = elim (Option-cases (hex c)) [
  | inl bad ↦ absurd (none-ne-some w (rw bad at e))
  | inr (d, good) ↦ rw good (hex_value-append cs back (v * 2 ^ 4 + d) w (rw good at e))
]

hex_value-hex_text : (n v : ℕ) → v < 16 ^ n → hex_value (hex_text n v) 0 ≡ some v
unfolding hex_value
hex_value-hex_text zero v h = ap some (omega arith)
hex_value-hex_text (suc n) v h =
    let front = hex_value-hex_text n (v / 16) (omega (arith, pow-suc 16 n)) in
    let last = hex-hex_char (v % 16) (omega arith) in
    hex_value-append (hex_text n (v / 16)) (hex_char (v % 16) ∷ []) 0 (v / 16) front
    ∙ rw last (ap some (omega arith))

-- Two digits for each byte.
read_two : (b : ℕ) → b < 256 → hex_value (hex_text 2 b) 0 ≡ some b
read_two b h = hex_value-hex_text 2 b (omega arith)

parse-to_string_cases :
    (d1 d2 d3 : ℕ) (bs : List ℕ)
    → let g : Guid = record { data1 = d1; data2 = d2; data3 = d3; data4 = bs } in
      IsValid g → parse (to_string g) ≡ some g
unfolding parse to_string
parse-to_string_cases d1 d2 d3 (b0 ∷ b1 ∷ b2 ∷ b3 ∷ b4 ∷ b5 ∷ b6 ∷ b7 ∷ []) ok =
    let (h0, (h1, (h2, (h3, (h4, (h5, (h6, (h7, _)))))))) = ok.data4_fits in
    rw (
      hex_value-hex_text 8 d1 (omega (arith, ok.data1_fits)),
      hex_value-hex_text 4 d2 (omega (arith, ok.data2_fits)),
      hex_value-hex_text 4 d3 (omega (arith, ok.data3_fits)),
      read_two b0 h0,
      read_two b1 h1,
      read_two b2 h2,
      read_two b3 h3,
      read_two b4 h4,
      read_two b5 h5,
      read_two b6 h6,
      read_two b7 h7,
    )
parse-to_string_cases d1 d2 d3 bs ok = absurd (omega (arith, ok.data4_size))

-- `Parse` reads back what `ToString` prints of any Guid whose fields are in their ranges.
pub parse-to_string : (g : Guid) → IsValid g → parse (to_string g) ≡ some g
parse-to_string g ok = parse-to_string_cases g.data1 g.data2 g.data3 g.data4 ok
