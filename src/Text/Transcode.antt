-- ===== src/Text/Transcode.antt =====
-- include/memorypack/core.hpp: append_utf8_codepoint, and the transcoder of the std::u16string formatter
-- that takes its text back to UTF-16.
use memory_pack_cpp.Base.{
  ℕ, zero, suc, ◌+◌, ◌-◌, ◌/◌, ◌%◌, ◌^◌, ◌≤◌, ◌<◌, ◌≡◌, ◌∙◌, refl, ap, List, [], ◌∷◌, ◌++◌, length,
  All, arith, take-append, drop-append, length-append, le→ltb, lt→ltb, le→leb, lt→leb, true, false,
}
use native.Mathlib.Decide.{dec_lt}
use memory_pack_cpp.Text.{
  code_points, is_high_surrogate, is_low_surrogate, surrogate_pair, utf8, utf8_text, utf16,
  shift_in, lead_length, lead_bits, transcode, utf16_from_utf8,
}

-- The UTF-16 units of code points.
abbrev pub utf16_text : List ℕ → List ℕ
utf16_text [] = []
utf16_text (cp ∷ cps) = utf16 cp ++ utf16_text cps

one_byte : (b : ℕ) → b < 0x80 → (lead_length b ≡ 1) × (lead_bits b ≡ b)
one_byte b h = rw (lt→ltb b 0x80 h) (refl, refl)

two_bytes : (b : ℕ) → 0xC0 ≤ b → b < 0xE0 → (lead_length b ≡ 2) × (lead_bits b ≡ b % 2 ^ 5)
two_bytes b low high =
    rw (le→ltb b 0x80 (omega arith), le→leb 0xC0 b low, lt→ltb b 0xE0 high) (refl, refl)

three_bytes : (b : ℕ) → 0xE0 ≤ b → b < 0xF0 → (lead_length b ≡ 3) × (lead_bits b ≡ b % 2 ^ 4)
three_bytes b low high =
    rw
      (
        le→ltb b 0x80 (omega arith),
        le→leb 0xC0 b (omega arith),
        le→ltb b 0xE0 low,
        le→leb 0xE0 b low,
        lt→ltb b 0xF0 high,
      )
      (refl, refl)

four_bytes : (b : ℕ) → 0xF0 ≤ b → (lead_length b ≡ 4) × (lead_bits b ≡ b % 2 ^ 3)
four_bytes b low =
    rw
      (
        le→ltb b 0x80 (omega arith),
        le→leb 0xC0 b (omega arith),
        le→ltb b 0xE0 (omega arith),
        le→leb 0xE0 b (omega arith),
        le→ltb b 0xF0 low,
      )
      (refl, refl)

-- A whole sequence is taken off, and its bits make the code point.
transcode-sequence :
    (fuel b : ℕ) (bs rest : List ℕ) (cp : ℕ)
    → lead_length b ≡ suc (length bs)
    → shift_in (lead_bits b) bs ≡ cp
    → transcode (suc fuel) (b ∷ (bs ++ rest)) ≡ utf16 cp ++ transcode fuel rest
unfolding transcode
transcode-sequence fuel b bs rest cp len bits =
    let more : lead_length b - 1 ≡ length bs = omega arith in
    rw
      (
        more,
        le→ltb (length (bs ++ rest)) (length bs) (omega (arith, length-append bs rest)),
        take-append bs rest,
        drop-append bs rest,
        bits,
      )
      refl

transcode-utf8 :
    (fuel cp : ℕ) (rest : List ℕ)
    → cp < 0x110000
    → transcode (suc fuel) (utf8 cp ++ rest) ≡ utf16 cp ++ transcode fuel rest
unfolding utf8
transcode-utf8 fuel cp rest valid = elim (dec_lt cp 0x80) [
  | yes one ↦
      let (len, bits) = one_byte cp one in
      rw (le→leb cp 0x7F (omega arith)) (transcode-sequence fuel cp [] rest cp len bits)
  | no more ↦ elim (dec_lt cp 0x800) [
    | yes two ↦
        let (len, bits) = two_bytes (0xC0 + cp / 2 ^ 6) (omega arith) (omega arith) in
        rw (lt→leb cp 0x7F (omega arith), le→leb cp 0x7FF (omega arith))
          (transcode-sequence fuel (0xC0 + cp / 2 ^ 6) ((0x80 + cp % 2 ^ 6) ∷ []) rest cp len
            (omega (arith, bits)))
    | no more2 ↦ elim (dec_lt cp 0x10000) [
      | yes three ↦
          let (len, bits) = three_bytes (0xE0 + cp / 2 ^ 12) (omega arith) (omega arith) in
          rw
            (
              lt→leb cp 0x7F (omega arith),
              lt→leb cp 0x7FF (omega arith),
              le→leb cp 0xFFFF (omega arith),
            )
            (transcode-sequence fuel (0xE0 + cp / 2 ^ 12)
              ((0x80 + cp / 2 ^ 6 % 2 ^ 6) ∷ (0x80 + cp % 2 ^ 6) ∷ []) rest cp len
              (omega (arith, bits)))
      | no more3 ↦
          let (len, bits) = four_bytes (0xF0 + cp / 2 ^ 18) (omega arith) in
          rw
            (
              lt→leb cp 0x7F (omega arith),
              lt→leb cp 0x7FF (omega arith),
              lt→leb cp 0xFFFF (omega arith),
            )
            (transcode-sequence fuel (0xF0 + cp / 2 ^ 18)
              ((0x80 + cp / 2 ^ 12 % 2 ^ 6)
                ∷ (0x80 + cp / 2 ^ 6 % 2 ^ 6)
                ∷ (0x80 + cp % 2 ^ 6)
                ∷ [])
              rest cp len (omega (arith, bits)))
    ]
  ]
]

utf8_some : (cp : ℕ) → 0 < length (utf8 cp)
unfolding utf8
utf8_some cp = elim (dec_lt cp 0x80) [
  | yes one ↦ rw (le→leb cp 0x7F (omega arith)) (omega arith)
  | no more ↦ elim (dec_lt cp 0x800) [
    | yes two ↦ rw (lt→leb cp 0x7F (omega arith), le→leb cp 0x7FF (omega arith)) (omega arith)
    | no more2 ↦ elim (dec_lt cp 0x10000) [
      | yes three ↦
          rw
            (
              lt→leb cp 0x7F (omega arith),
              lt→leb cp 0x7FF (omega arith),
              le→leb cp 0xFFFF (omega arith),
            )
            (omega arith)
      | no more3 ↦
          rw
            (
              lt→leb cp 0x7F (omega arith),
              lt→leb cp 0x7FF (omega arith),
              lt→leb cp 0xFFFF (omega arith),
            )
            (omega arith)
    ]
  ]
]

transcode-utf8_text :
    (fuel : ℕ) (cps : List ℕ)
    → All (λ cp. cp < 0x110000) cps
    → length cps ≤ fuel
    → transcode fuel (utf8_text cps) ≡ utf16_text cps
unfolding utf8_text
transcode-utf8_text zero [] valid enough = unfold transcode in refl
transcode-utf8_text (suc fuel) [] valid enough = unfold transcode in refl
transcode-utf8_text zero (cp ∷ cps) valid enough = absurd (omega arith)
transcode-utf8_text (suc fuel) (cp ∷ cps) valid enough =
    transcode-utf8 fuel cp (utf8_text cps) valid.0
    ∙ ap (λ (us : List ℕ). utf16 cp ++ us) (transcode-utf8_text fuel cps valid.1 (omega arith))

utf8_text_long : (cps : List ℕ) → length cps ≤ length (utf8_text cps)
unfolding utf8_text
utf8_text_long [] = omega arith
utf8_text_long (cp ∷ cps) =
    omega (arith, utf8_some cp, utf8_text_long cps, length-append (utf8 cp) (utf8_text cps))

-- The transcoder takes the UTF-8 text of code points to their UTF-16 units, with its rounds: one per
-- byte. The code points are below 0x110000.
pub utf16_from_utf8-utf8_text :
    (cps : List ℕ)
    → All (λ cp. cp < 0x110000) cps
    → utf16_from_utf8 (utf8_text cps) ≡ utf16_text cps
unfolding utf16_from_utf8
utf16_from_utf8-utf8_text cps valid =
    transcode-utf8_text (length (utf8_text cps)) cps valid (utf8_text_long cps)

-- UTF-16 text: units of 16 bits, with surrogates in pairs only.
pub data IsUtf16 : List ℕ → Type 0 where
  empty : IsUtf16 []
  unit :
      {u : ℕ} {us : List ℕ}
      → u < 0x10000
      → is_high_surrogate u ≡ false
      → is_low_surrogate u ≡ false
      → IsUtf16 us
      → IsUtf16 (u ∷ us)
  pair :
      {hi lo : ℕ} {us : List ℕ}
      → is_high_surrogate hi ≡ true
      → is_low_surrogate lo ≡ true
      → IsUtf16 us
      → IsUtf16 (hi ∷ lo ∷ us)

pub code_points-unit :
    (u : ℕ) (us : List ℕ)
    → is_high_surrogate u ≡ false
    → is_low_surrogate u ≡ false
    → code_points (u ∷ us) ≡ u ∷ code_points us
unfolding code_points
code_points-unit u [] high low = rw (high, low) refl
code_points-unit u (v ∷ us) high low = rw (high, low) refl

pub code_points-pair :
    (hi lo : ℕ) (us : List ℕ)
    → is_high_surrogate hi ≡ true
    → is_low_surrogate lo ≡ true
    → code_points (hi ∷ lo ∷ us) ≡ surrogate_pair hi lo ∷ code_points us
unfolding code_points
code_points-pair hi lo us high low = rw (high, low) refl

pub high_range : (u : ℕ) → is_high_surrogate u ≡ true → (0xD800 ≤ u) × (u ≤ 0xDBFF)
high_range u h = (ground arith, ground arith)

pub low_range : (u : ℕ) → is_low_surrogate u ≡ true → (0xDC00 ≤ u) × (u ≤ 0xDFFF)
low_range u h = (ground arith, ground arith)

utf16-pair :
    (hi lo : ℕ)
    → is_high_surrogate hi ≡ true
    → is_low_surrogate lo ≡ true
    → (utf16 (surrogate_pair hi lo) ≡ hi ∷ lo ∷ []) × (surrogate_pair hi lo < 0x110000)
unfolding utf16
utf16-pair hi lo high low =
    let (h0, h1) = high_range hi high in
    let (l0, l1) = low_range lo low in
    let a : (0xD800 + (surrogate_pair hi lo - 0x10000) / 2 ^ 10) % 2 ^ 16 ≡ hi = omega arith in
    let b : 0xDC00 + (surrogate_pair hi lo - 0x10000) % 2 ^ 10 ≡ lo = omega arith in
    (rw (lt→leb (surrogate_pair hi lo) 0xFFFF (omega arith), a, b) refl, omega arith)

utf16-unit : (u : ℕ) → u < 0x10000 → utf16 u ≡ u ∷ []
unfolding utf16
utf16-unit u h = rw (le→leb u 0xFFFF (omega arith)) refl

code_points-valid : {us : List ℕ} → IsUtf16 us → All (λ cp. cp < 0x110000) (code_points us)
code_points-valid empty = unfold code_points in tt
code_points-valid (unit {u} {us} small high low rest) =
    rw (code_points-unit u us high low) (omega arith, code_points-valid rest)
code_points-valid (pair {hi} {lo} {us} high low rest) =
    rw (code_points-pair hi lo us high low) ((utf16-pair hi lo high low).1, code_points-valid rest)

utf16_text-code_points : {us : List ℕ} → IsUtf16 us → utf16_text (code_points us) ≡ us
utf16_text-code_points empty = unfold code_points in refl
utf16_text-code_points (unit {u} {us} small high low rest) =
    rw (code_points-unit u us high low, utf16-unit u small)
      (ap {B = List ℕ} (λ us'. u ∷ us') (utf16_text-code_points rest))
utf16_text-code_points (pair {hi} {lo} {us} high low rest) =
    rw (code_points-pair hi lo us high low, (utf16-pair hi lo high low).0)
      (ap {B = List ℕ} (λ us'. hi ∷ lo ∷ us') (utf16_text-code_points rest))

-- UTF-16 text, turned into the UTF-8 text of its code points, comes back from the transcoder.
pub utf16_from_utf8-code_points :
    (us : List ℕ) → IsUtf16 us → utf16_from_utf8 (utf8_text (code_points us)) ≡ us
utf16_from_utf8-code_points us ok =
    utf16_from_utf8-utf8_text (code_points us) (code_points-valid ok) ∙ utf16_text-code_points ok
