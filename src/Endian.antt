-- ===== src/Endian.antt =====
-- include/memorypack/core.hpp, detail::byteswap and detail::endian_convert: numbers on hosts of either
-- byte order. The other modules are about a little-endian host.
use native.Mathlib.Nat.{pow-suc, mod-eq_of_lt}
use memory_pack_cpp.Base.{
  ℕ, zero, suc, ◌+◌, ◌*◌, ◌/◌, ◌%◌, ◌^◌, ◌≤◌, ◌<◌, ◌≡◌, ◌∙◌, refl, ap, Bool, true, false, List, [],
  ◌∷◌, ◌++◌, length, All, to_le, length-to_le, if◌then◌else◌, append-nil, arith, Bool-cases, ◌||◌,
  ◌==◌, inl, inr,
}
use memory_pack_cpp.Base.{IsByte, to_le-IsByte}

-- out = (out << 8) | (raw & 0xFF); raw = raw >> 8; for each byte that is left, on an unsigned number of `w`
-- bytes. The lowest byte of out << 8 is 0.
unfoldable pub swap_rounds : ℕ → ℕ → ℕ → ℕ → ℕ
swap_rounds w zero out raw = out
swap_rounds w (suc left) out raw =
    swap_rounds w left ((out * 256 + raw % 256) % 256 ^ w) (raw / 256)

-- T byteswap(T value), where the standard library has no std::byteswap, for a T of `w` bytes.
unfoldable pub byteswap : ℕ → ℕ → ℕ
unfolding swap_rounds
byteswap w value = swap_rounds w w 0 value

-- T endian_convert(T value)
unfoldable pub endian_convert : Bool → ℕ → ℕ → ℕ
unfolding byteswap
endian_convert little w value = if little || w == 1 then value else byteswap w value

abbrev pub rev : List ℕ → List ℕ → List ℕ
rev [] ys = ys
rev (x ∷ xs) ys = rev xs (x ∷ ys)

-- The memory of a `w`-byte number on a host of either byte order.
abbrev pub memory_of : Bool → ℕ → ℕ → List ℕ
memory_of little w v = if little then to_le w v else rev (to_le w v) []

rev-rev : (xs ys zs : List ℕ) → rev (rev xs ys) zs ≡ rev ys (xs ++ zs)
rev-rev [] ys zs = refl
rev-rev (x ∷ xs) ys zs = rev-rev xs (x ∷ ys) zs

-- The number whose bytes, the highest first, are those of `out` and then `bs`.
abbrev from_be : ℕ → List ℕ → ℕ
from_be out [] = out
from_be out (b ∷ bs) = from_be (out * 256 + b) bs

to_le-from_be :
    (bs : List ℕ) (k out : ℕ)
    → All IsByte bs
    → to_le (length bs + k) (from_be out bs) ≡ rev bs (to_le k out)
to_le-from_be [] k out h = let e : 0 + k ≡ k = omega arith in rw e refl
to_le-from_be (b ∷ bs) k out h =
    let shifted : length (b ∷ bs) + k ≡ length bs + suc k = omega arith in
    let low : (out * 256 + b) % 256 ≡ b = omega (arith, h.0) in
    let high : (out * 256 + b) / 256 ≡ out = omega (arith, h.0) in
    rw shifted
      (to_le-from_be bs (suc k) (out * 256 + b) h.1 ∙ λ i. rev bs (low i ∷ to_le k (high i)))

pow_le : (a i : ℕ) → 256 ^ a ≤ 256 ^ (i + a)
pow_le a zero = let e : 0 + a ≡ a = omega arith in rw e (omega arith)
pow_le a (suc i) =
    let e : suc i + a ≡ suc (i + a) = omega arith in
    rw e (omega (arith, pow_le a i, pow-suc 256 (i + a)))

-- The rounds put the bytes that are left behind those that are done.
swap_rounds-from_be :
    (w left done out raw : ℕ)
    → w ≡ left + done
    → out < 256 ^ done
    → swap_rounds w left out raw ≡ from_be out (to_le left raw)
unfolding swap_rounds
swap_rounds-from_be w zero done out raw e h = refl
swap_rounds-from_be w (suc left) done out raw e h =
    let next = out * 256 + raw % 256 in
    let small : next < 256 ^ suc done = omega (arith, h, pow-suc 256 done) in
    let e' : w ≡ left + suc done = omega arith in
    let room : 256 ^ suc done ≤ 256 ^ w = rw e' (pow_le (suc done) left) in
    let below : next < 256 ^ w = omega (arith, small, room) in
    rw (mod-eq_of_lt below) (swap_rounds-from_be w left (suc done) next (raw / 256) e' small)

to_le-byteswap : (w v : ℕ) → to_le w (byteswap w v) ≡ rev (to_le w v) []
unfolding byteswap
to_le-byteswap w v =
    let e : w ≡ w + 0 = omega arith in
    let size : length (to_le w v) + 0 ≡ w = omega (arith, length-to_le w v) in
    ap (λ (n : ℕ). to_le w n) (swap_rounds-from_be w w 0 0 v e (omega arith))
    ∙ (rw size at (to_le-from_be (to_le w v) 0 0 (to_le-IsByte w v)))

-- `endian_convert` makes the encoding of a number the same on hosts of either byte order: the memory of
-- what it returns is the little-endian bytes of the number.
pub memory_of-endian_convert :
    (little : Bool) (w v : ℕ) → memory_of little w (endian_convert little w v) ≡ to_le w v
unfolding endian_convert
memory_of-endian_convert true w v = refl
memory_of-endian_convert false w v = elim (Bool-cases (w == 1)) [
  | inl one ↦ let e : w ≡ 1 = ground arith in rw e refl
  | inr more ↦ rw more (
      ap (λ (bs : List ℕ). rev bs []) (to_le-byteswap w v)
      ∙ rev-rev (to_le w v) [] []
      ∙ append-nil (to_le w v))
]
