-- ===== src/Dotnet/Half/RoundTrip.antt =====
-- include/memorypack/dotnet.hpp, struct Half: a half survives the float between, and how FromFloat
-- rounds.
use memory_pack_cpp.Base.{
  ℕ, zero, suc, ◌+◌, ◌-◌, ◌*◌, ◌/◌, ◌%◌, ◌^◌, ◌<◌, ◌≤◌, ◌≡◌, ◌≢◌, ◌⊎◌, inl, inr, ◌∙◌, refl, sym,
  subst, ap, Bool, true, false, Bool-cases, if◌then◌else◌, ◌&&◌, ltb, ◌==◌, arith, lt→leb,
  ne→==false,
}
use native.Mathlib.Decide.{dec_lt}
use memory_pack_cpp.Dotnet.Half.{magnitude_from_float, from_float, magnitude_to_float, to_float}

-- Runs a test on `left` numbers in a row, from `i` on.
abbrev passes_from : ℕ → ℕ → (ℕ → Bool) → Bool
passes_from i zero test = true
passes_from i (suc left) test =
    let rest = passes_from (suc i) left test in if test i then rest else false

-- Each of the numbers has passed: the first one, or one of the rest.
passes_from_lem :
    (left i m : ℕ) (test : ℕ → Bool)
    → passes_from i left test ≡ true
    → i ≤ m
    → m < i + left
    → test m ≡ true
passes_from_lem zero i m test run low high = absurd (omega arith)
passes_from_lem (suc left) i m test run low high = elim (Bool-cases (test i)) [
  | inr fails ↦ cc (rw fails at run)
  | inl holds ↦ elim (dec_lt i m) [
    | yes later ↦ passes_from_lem left (suc i) m test (rw holds at run) (omega arith) (omega arith)
    | no first ↦ let same : m ≡ i = omega arith in ap test same ∙ holds
  ]
]

abbrev subnormal_test : ℕ → Bool
subnormal_test m =
    let float = magnitude_to_float 0 m in
    ltb float (2 ^ 31) && (magnitude_from_float (float / 2 ^ 23 % 2 ^ 8) (float % 2 ^ 23) == m)

-- The subnormal halves, one by one.
subnormal_table : passes_from 0 1024 subnormal_test ≡ true
unfolding magnitude_from_float magnitude_to_float
subnormal_table = refl

-- In the range of the normal halves the result is the nearest one, halves rounded up.
magnitude_from_float-normal :
    (biased mant : ℕ)
    → 113 ≤ biased
    → biased ≤ 142
    → magnitude_from_float biased mant ≡ (biased - 112) * 2 ^ 10 + (mant + 2 ^ 12) / 2 ^ 13
unfolding magnitude_from_float
magnitude_from_float-normal biased mant low high =
    rw
      (
        ne→==false biased 0xFF (omega arith),
        lt→leb 143 biased (omega arith),
        lt→leb biased 112 (omega arith),
      )
      (ground arith)

-- `FromFloat` of a float in the range of the normal halves is the nearest half, and of two that are
-- as near the one that is further from zero, whatever its last bit: the magnitude is rounded half up.
pub from_float-rounds_half_up :
    (x : ℕ)
    → x < 2 ^ 32
    → 113 ≤ x / 2 ^ 23 % 2 ^ 8
    → x / 2 ^ 23 % 2 ^ 8 ≤ 142
    → from_float x ≡ x / 2 ^ 31 * 2 ^ 15 + ((x % 2 ^ 31 + 2 ^ 12) / 2 ^ 13 - 112 * 2 ^ 10)
unfolding from_float
from_float-rounds_half_up x fits low high =
    omega (arith, magnitude_from_float-normal (x / 2 ^ 23 % 2 ^ 8) (x % 2 ^ 23) low high)

-- The half is no NaN.
abbrev pub IsNumber : ℕ → ℕ → Type 0
IsNumber exp mant = (exp ≢ 31) ⊎ (mant ≡ 0)

-- What the magnitude of a half becomes and comes back as.
abbrev ComesBack : ℕ → ℕ → ℕ → Type 0
ComesBack exp mant m =
    (m < 2 ^ 31) × (magnitude_from_float (m / 2 ^ 23 % 2 ^ 8) (m % 2 ^ 23) ≡ exp * 2 ^ 10 + mant)

subnormal-ComesBack : (mant : ℕ) → mant < 1024 → ComesBack 0 mant (magnitude_to_float 0 mant)
subnormal-ComesBack mant h =
    let run : subnormal_test mant ≡ true =
      passes_from_lem 1024 0 mant subnormal_test subnormal_table (omega arith) h in
    (ground arith, ground arith)

infinite-ComesBack : ComesBack 31 0 (magnitude_to_float 31 0)
unfolding magnitude_from_float magnitude_to_float
infinite-ComesBack = (omega arith, refl)

normal-ComesBack :
    (exp mant : ℕ)
    → 0 < exp
    → exp < 31
    → mant < 2 ^ 10
    → ComesBack exp mant (magnitude_to_float exp mant)
unfolding magnitude_to_float
normal-ComesBack exp mant low high small =
    let m = (exp + 112) * 2 ^ 23 + mant * 2 ^ 13 in
    let biased : m / 2 ^ 23 % 2 ^ 8 ≡ exp + 112 = omega arith in
    let fraction : m % 2 ^ 23 ≡ mant * 2 ^ 13 = omega arith in
    rw (ne→==false exp 0 (omega arith), ne→==false exp 31 (omega arith))
      (
        omega arith,
        rw (biased, fraction)
            (magnitude_from_float-normal (exp + 112) (mant * 2 ^ 13) (omega arith) (omega arith)
              ∙ omega arith),
      )

IsNumber-top : (exp mant : ℕ) → 31 ≡ exp → IsNumber exp mant → 0 ≡ mant
IsNumber-top exp mant top (inl other) = absurd (other (sym top))
IsNumber-top exp mant top (inr exact) = sym exact

magnitude-ComesBack :
    (exp mant : ℕ)
    → exp < 32
    → mant < 2 ^ 10
    → IsNumber exp mant
    → ComesBack exp mant (magnitude_to_float exp mant)
magnitude-ComesBack exp mant e m number = elim (dec_lt 0 exp) [
  | no z ↦
      let zero_exp : 0 ≡ exp = omega arith in
      subst (λ k. ComesBack k mant (magnitude_to_float k mant)) zero_exp
        (subnormal-ComesBack mant m)
  | yes p ↦ elim (dec_lt exp 31) [
    | yes q ↦ normal-ComesBack exp mant p q m
    | no q ↦
        let top : 31 ≡ exp = omega arith in
        let exact : 0 ≡ mant = IsNumber-top exp mant top number in
        subst (λ k. ComesBack k mant (magnitude_to_float k mant)) top
          (subst (λ k. ComesBack 31 k (magnitude_to_float 31 k)) exact infinite-ComesBack)
  ]
]

-- A half that is no NaN comes back from the float that `ToFloat` makes of it: the conversion loses
-- nothing, for zeros, subnormal and normal numbers and infinities of both signs.
pub from_float-to_float :
    (h : ℕ) → h < 2 ^ 16 → IsNumber (h / 2 ^ 10 % 2 ^ 5) (h % 2 ^ 10) → from_float (to_float h) ≡ h
unfolding from_float to_float
from_float-to_float h fits number =
    let exp = h / 2 ^ 10 % 2 ^ 5 in
    let mant = h % 2 ^ 10 in
    let (bound, back) = magnitude-ComesBack exp mant (omega arith) (omega arith) number in
    let m = magnitude_to_float exp mant in
    let x = h / 2 ^ 15 % 2 * 2 ^ 31 + m in
    let sign : x / 2 ^ 31 % 2 ≡ h / 2 ^ 15 = omega arith in
    let biased : x / 2 ^ 23 % 2 ^ 8 ≡ m / 2 ^ 23 % 2 ^ 8 = omega arith in
    let fraction : x % 2 ^ 23 ≡ m % 2 ^ 23 = omega arith in
    rw (sign, biased, fraction, back) (omega arith)
