-- ===== src/Text/Units.antt =====
-- include/memorypack/core.hpp, utf16_length_from_utf8: the loop over blocks of eight bytes counts
-- what the byte loop counts.
use memory_pack_cpp.Base.{
  ℕ, ◌+◌, ◌≡◌, ◌∙◌, refl, sym, ap, Bool, true, false, List, [], ◌∷◌, ◌++◌, length, leb, ◌||◌, arith,
  Bool-cases, inl, inr,
}
use memory_pack_cpp.Text.{has_high_bit, count_units, count_blocks, utf16_length_from_utf8}

-- An ASCII byte counts as one unit.
count_units-ascii :
    (b : ℕ) (bs : List ℕ) (units : ℕ)
    → leb 0x80 b ≡ false
    → count_units (b ∷ bs) units ≡ count_units bs (units + 1)
unfolding count_units
count_units-ascii b bs units h = ap (count_units bs) (ground arith)

or-false : (a b : Bool) → (a || b) ≡ false → (a ≡ false) × (b ≡ false)
or-false true b h = cc
or-false false b h = (refl, h)

-- A run of ASCII bytes counts as its length.
count_units-run :
    (block rest : List ℕ) (units : ℕ)
    → has_high_bit block ≡ false
    → count_units (block ++ rest) units ≡ count_units rest (units + length block)
count_units-run [] rest units h = ap (count_units rest) (omega arith)
count_units-run (b ∷ bs) rest units h =
    let (low, others) = or-false (leb 0x80 b) (has_high_bit bs) h in
    count_units-ascii b (bs ++ rest) units low
    ∙ count_units-run bs rest (units + 1) others
    ∙ ap (count_units rest) (omega arith)

count_blocks_lem : (bytes : List ℕ) (units : ℕ) → count_blocks bytes units ≡ count_units bytes units
unfolding count_blocks
count_blocks_lem (b0 ∷ b1 ∷ b2 ∷ b3 ∷ b4 ∷ b5 ∷ b6 ∷ b7 ∷ rest) units =
    let block = b0 ∷ b1 ∷ b2 ∷ b3 ∷ b4 ∷ b5 ∷ b6 ∷ b7 ∷ [] in
    elim (Bool-cases (has_high_bit block)) [
      | inl high ↦ rw high
      | inr ascii ↦
          rw ascii
            (count_blocks_lem rest (units + 8) ∙ sym (count_units-run block rest units ascii))
    ]
count_blocks_lem bytes units = refl

-- `utf16_length_from_utf8` is the byte loop alone: the fast path changes nothing.
pub utf16_length_from_utf8-count_units :
    (bytes : List ℕ) → utf16_length_from_utf8 bytes ≡ count_units bytes 0
unfolding utf16_length_from_utf8
utf16_length_from_utf8-count_units bytes = count_blocks_lem bytes 0
