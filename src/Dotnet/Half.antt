-- ===== src/Dotnet/Half.antt =====
-- include/memorypack/dotnet.hpp, struct Half: conversion from and to float, on bit patterns. Fields
-- that do not overlap are added where the source joins them by `|`, and the source's `exp`, which
-- is `biased - 112` in FromFloat, is compared by way of `biased`.
pub mod RoundTrip
use memory_pack_cpp.Base.{
  ℕ, zero, suc, ◌+◌, ◌-◌, ◌*◌, ◌/◌, ◌%◌, ◌^◌, Bool, true, false, ltb, leb, ◌==◌, if◌then◌else◌,
}

-- A result for a magnitude with the highest bit shifted out: one more where that bit is set.
abbrev pub round_up : ℕ → ℕ → ℕ
round_up result bit = if bit % 2 == 1 then result + 1 else result

-- The bits of FromFloat without the sign, for the exponent field and the fraction of the float.
unfoldable pub magnitude_from_float : ℕ → ℕ → ℕ
magnitude_from_float biased mant =
    if biased == 0xFF
    then 0x7C00 + (if mant == 0 then 0 else 0x0200)
    else if leb (0x1F + 112) biased
    then 0x7C00
    else if leb biased 112
    then (if ltb biased 102
        then 0
        else round_up ((mant + 2 ^ 23) / 2 ^ (126 - biased)) ((mant + 2 ^ 23) / 2 ^ (125 - biased)))
    else round_up ((biased - 112) * 2 ^ 10 + mant / 2 ^ 13) (mant / 2 ^ 12)

-- static Half FromFloat(float value)
unfoldable pub from_float : ℕ → ℕ
unfolding magnitude_from_float
from_float x = x / 2 ^ 31 % 2 * 2 ^ 15 + magnitude_from_float (x / 2 ^ 23 % 2 ^ 8) (x % 2 ^ 23)

-- while ((m & 0x0400u) == 0) { m <<= 1; --e; }: the float's exponent and fraction fields, with ten
-- rounds for a fraction that is not zero.
unfoldable pub normalise : ℕ → ℕ → ℕ → ℕ
normalise zero m e = e * 2 ^ 23 + m % 2 ^ 10 * 2 ^ 13
normalise (suc rounds) m e =
    let next = normalise rounds (m * 2) (e - 1) in
    if m / 2 ^ 10 % 2 == 0 then next else e * 2 ^ 23 + m % 2 ^ 10 * 2 ^ 13

-- The bits of ToFloat without the sign.
unfoldable pub magnitude_to_float : ℕ → ℕ → ℕ
unfolding normalise
magnitude_to_float exp mant =
    if exp == 0
    then (if mant == 0 then 0 else normalise 10 mant 113)
    else if exp == 0x1F
    then 0x7F800000 + mant * 2 ^ 13
    else (exp + 112) * 2 ^ 23 + mant * 2 ^ 13

-- float ToFloat() const
unfoldable pub to_float : ℕ → ℕ
unfolding magnitude_to_float
to_float bits =
    bits / 2 ^ 15 % 2 * 2 ^ 31 + magnitude_to_float (bits / 2 ^ 10 % 2 ^ 5) (bits % 2 ^ 10)
