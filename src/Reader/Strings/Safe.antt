-- ===== src/Reader/Strings/Safe.antt =====
-- include/memorypack/core.hpp, MemoryPackReader: strings read from any input.
use memory_pack_cpp.Base.{
  inr, ℕ, zero, suc, ◌+◌, ◌-◌, ◌*◌, ◌/◌, ◌%◌, ◌≤◌, ◌<◌, ◌^◌, ◌≡◌, false, not, List, [], length,
  take, drop, ltb, ◌==◌, refl, if◌then◌else◌, ◌&&◌, from_le, some, arith,
}
use memory_pack_cpp.Outcome.{length_limit, returned, pure, returns, Ensures-if}
use memory_pack_cpp.Reader.{Reader, IsValid, failed, remaining}
use memory_pack_cpp.Reader.Safe.{
  Safe, SafeFrom, Safe-bind, Safe-pure, Safe-if, SafeFrom-if, Safe-guarded_clean, checked-Safe,
  fail_with-Safe, is_failed-Safe, Kept-refl, SafeFrom-after, moved-Kept,
}
use memory_pack_cpp.Reader.Headers.{null_collection, is_negative}
use memory_pack_cpp.Reader.Headers.Safe.{read_raw-Safe, read_raw_passes}
use memory_pack_cpp.Reader.Strings.{
  check_string_length, step_back, read_utf16_units, read_utf16_string, read_utf8_payload,
  read_string, read_string_into,
}
use memory_pack_cpp.Wire.{complement}
use memory_pack_cpp.Text.{
  append_utf8_codepoint, is_high_surrogate, is_low_surrogate, surrogate_pair,
}

pub check_string_length-Safe : (n unit : ℕ) → Safe (check_string_length n unit)
unfolding check_string_length
check_string_length-Safe n unit r v =
    Ensures-if (ltb r.options.max_string_length n)
      (λ _. fail_with-Safe length_limit false (λ e. cc) r v)
      (λ _.
        Ensures-if (ltb 0 unit && ltb (remaining r / unit) n)
          (λ _. fail_with-Safe length_limit false (λ e. cc) r v) (λ _. returns (Kept-refl v)))

pub step_back_lem :
    (r : Reader) (p : ℕ)
    → r.pos ≡ p + 2
    → p < 2 ^ 64
    → step_back r ≡ returned tt (record r { pos = p })
unfolding step_back
step_back_lem r p e h =
    let back : (r.pos + 2 ^ 64 - 2) % 2 ^ 64 ≡ p = omega arith in
    λ i. returned tt (record r { pos = back i })

-- Behind the bounds check of the whole payload no unit is read outside it.
read_utf16_units-Safe :
    (units : ℕ) (out : List ℕ) (r : Reader)
    → IsValid r
    → failed r ≡ false
    → r.pos + units * 2 ≤ length r.bytes
    → SafeFrom r (read_utf16_units units out r)
unfolding read_utf16_units
read_utf16_units-Safe zero out r v clean bound = returns (Kept-refl v)
read_utf16_units-Safe (suc zero) out r v clean bound =
    rw (read_raw_passes 2 r v clean (omega arith)) (returns (moved-Kept 2 r v (omega arith)))
read_utf16_units-Safe (suc (suc units)) out r v clean bound =
    let k = moved-Kept 2 r v (omega arith) in
    let hi = from_le (take 2 (drop r.pos r.bytes)) in
    let s : Reader = record r { pos = r.pos + 2 } in
    let lo = from_le (take 2 (drop s.pos s.bytes)) in
    rw (read_raw_passes 2 r v clean (omega arith)) (
      SafeFrom-after k (
        SafeFrom-if (is_high_surrogate hi) _ _
          (λ _. rw (read_raw_passes 2 s k.valid clean (omega arith)) (
            let l = moved-Kept 2 s k.valid (omega arith) in
            let t : Reader = record s { pos = s.pos + 2 } in
            SafeFrom-after l (
              SafeFrom-if (is_low_surrogate lo) _ _
                (λ _.
                  read_utf16_units-Safe units (append_utf8_codepoint out (surrogate_pair hi lo)) t
                    l.valid clean (omega arith))
                (λ _. rw (step_back_lem t s.pos refl (omega (arith, v.fits))) (
                  SafeFrom-after {r = t} {s = s}
                    (record {
                      valid = k.valid;
                      same_bytes = refl;
                      same_options = refl;
                      same_build = refl;
                      sticky = inr refl;
                    })
                    (read_utf16_units-Safe (suc units) (append_utf8_codepoint out 0xFFFD) s k.valid
                      clean (omega arith)))))))
          (λ _.
            read_utf16_units-Safe (suc units)
              (append_utf8_codepoint out (if is_low_surrogate hi then 0xFFFD else hi)) s k.valid
              clean (omega arith))))

pub read_utf16_string-Safe : (units : ℕ) → Safe (read_utf16_string units)
unfolding read_utf16_string
read_utf16_string-Safe units = Safe-bind (check_string_length-Safe units 2) (λ plausible.
    Safe-if plausible
      (Safe-guarded_clean (units * 2) _
        (λ r v clean bound. read_utf16_units-Safe units [] r v clean bound) (Safe-pure []))
      (Safe-pure []))

read_utf8_payload-Safe :
    {A : Type 0} (n : ℕ) (d : A) (f : List ℕ → A) → Safe (read_utf8_payload n d f)
unfolding read_utf8_payload
read_utf8_payload-Safe n d f = Safe-bind (read_raw-Safe 4) (λ _.
    Safe-bind (check_string_length-Safe n 1) (λ plausible.
      Safe-if plausible (checked-Safe n (λ bs. pure (f bs)) d (λ bs. Safe-pure (f bs)))
        (Safe-pure d)))

-- `ReadString` on any input touches no memory outside it, keeps the position in bounds and replaces
-- no error, whether it returns or throws.
pub read_string-Safe : (r : Reader) → IsValid r → SafeFrom r (read_string r)
unfolding read_string
read_string-Safe = Safe-bind (read_raw-Safe 4) (λ header. Safe-bind is_failed-Safe (λ bad.
    Safe-if bad (Safe-pure _) (
      Safe-if (header == null_collection) (Safe-pure _) (
        Safe-if (header == 0) (Safe-pure _) (
          Safe-if (not (is_negative header))
            (Safe-bind (read_utf16_string-Safe header) (λ s. Safe-pure _))
            (read_utf8_payload-Safe (complement header) (some []) some))))))

pub read_string_into-Safe : Safe read_string_into
unfolding read_string_into
read_string_into-Safe = Safe-bind read_string-Safe (λ s. Safe-pure _)
