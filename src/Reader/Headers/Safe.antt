-- ===== src/Reader/Headers/Safe.antt =====
-- include/memorypack/core.hpp, MemoryPackReader: headers read from any input.
use memory_pack_cpp.Base.{
  ◌⊎◌, ℕ, zero, suc, refl, inl, inr, ◌+◌, ◌*◌, ◌/◌, ◌≤◌, ◌<◌, ◌^◌, ◌≡◌, false, not, length, ltb,
  leb, ◌==◌, ◌&&◌, from_le, take, drop, arith, ltb→le, lt→ltb,
}
use native.Mathlib.Nat.{le-div_iff_mul-le}
use memory_pack_cpp.Outcome.{
  length_limit, invalid_header, Outcome, returned, pure, ◌>>◌, Ensures, returns, Ensures-if,
  Ensures-bind, Ensures-weaken,
}
use memory_pack_cpp.Reader.{failed, Reader, IsValid, fail, remaining}
use memory_pack_cpp.Reader.Safe.{
  Safe, Safe-bind, Safe-pure, ensure_bytes_passes, take_bytes_lem, Safe-if, checked-Safe, fail-Safe,
  fail_with-Safe, Kept-refl, load_lem, Kept, Raised, Kept-trans, Raised-trans, remaining_lem,
}
use memory_pack_cpp.Reader.Headers.{
  read_byte, read_raw, read_bool, read_object_header, peek_is_null, read_collection_length,
  check_collection_length, read_union_header, read_varint_length, null_collection, is_negative,
  null_object, max_member_count, wide_tag,
}

pub read_byte-Safe : Safe read_byte
unfolding read_byte
read_byte-Safe = checked-Safe 1 _ 0 (λ bs. Safe-pure _)

pub read_raw-Safe : (w : ℕ) → Safe (read_raw w)
unfolding read_raw
read_raw-Safe w = checked-Safe w _ 0 (λ bs. Safe-pure _)

pub read_bool-Safe : Safe read_bool
unfolding read_bool
read_bool-Safe = Safe-bind read_byte-Safe (λ b. Safe-pure _)

pub read_object_header-Safe : Safe read_object_header
unfolding read_object_header
read_object_header-Safe = Safe-bind read_byte-Safe (λ b.
    Safe-if (b == null_object) (Safe-pure _)
      (Safe-if (ltb max_member_count b) (fail_with-Safe invalid_header _ (λ e. cc)) (Safe-pure _)))

pub peek_is_null-Safe : Safe peek_is_null
unfolding peek_is_null
peek_is_null-Safe r v =
    Ensures-if (leb (length r.bytes) r.pos) (λ _. returns (Kept-refl v))
      (λ e. rw (load_lem 1 r (ground arith)) (returns (Kept-refl v)))

pub read_union_header-Safe : Safe read_union_header
unfolding read_union_header
read_union_header-Safe = Safe-bind read_byte-Safe (λ b. Safe-if (b == null_object) (Safe-pure _) (
    Safe-if (b == wide_tag) (Safe-bind (read_raw-Safe 2) (λ tag. Safe-pure _))
      (Safe-if (ltb wide_tag b) (fail_with-Safe invalid_header _ (λ e. cc)) (Safe-pure _))))

pub read_varint_length-Safe : Safe read_varint_length
unfolding read_varint_length
read_varint_length-Safe = Safe-bind read_byte-Safe (λ b. Safe-if (leb b 127) (Safe-pure _) (
    Safe-if (b == 0x84) (read_raw-Safe 2)
      (Safe-if (b == 0x82) (read_raw-Safe 4) (fail_with-Safe invalid_header _ (λ e. cc)))))

-- A length that is handed out is the null marker, or its elements fit the unread input.
abbrev pub Plausible : ℕ → ℕ → Reader → Type 0
Plausible min_size len r =
    (len ≡ null_collection)
    ⊎ ((len < 2 ^ 31)
        × (len ≤ r.options.max_collection_length)
        × (r.pos + len * min_size ≤ length r.bytes))

fits_of_test :
    (min_size len left : ℕ)
    → (ltb 0 min_size && ltb (left / min_size) len) ≡ false
    → len * min_size ≤ left
fits_of_test zero len left h = omega arith
fits_of_test (suc n) len left h =
    (le-div_iff_mul-le (omega arith)).0
      (ltb→le (left / suc n) len (rw (lt→ltb 0 (suc n) (omega arith)) at h))

-- `Safe` with what is said of an accepted length.
abbrev AcceptFrom : ℕ → Reader → Outcome Reader ℕ → Type 0
AcceptFrom min_size r o = Ensures (λ len r'. Kept r r' × Plausible min_size len r') (Raised r) o

reject_lem :
    (min_size : ℕ) (r : Reader)
    → IsValid r
    → AcceptFrom min_size r ((fail length_limit >> pure null_collection) r)
reject_lem min_size r v =
    Ensures-bind (fail-Safe length_limit (λ e. cc) r v) (λ _ s q. returns (q, inl refl))

check_collection_length_lem :
    (min_size len : ℕ) (r : Reader)
    → IsValid r
    → AcceptFrom min_size r (check_collection_length min_size len r)
unfolding check_collection_length
check_collection_length_lem min_size len r v =
    Ensures-if (is_negative len)
      (λ _.
        Ensures-if (not (len == null_collection)) (λ _. reject_lem min_size r v)
          (λ null. returns (Kept-refl v, inl (ground arith))))
      (λ positive.
        Ensures-if (ltb r.options.max_collection_length len) (λ _. reject_lem min_size r v)
          (λ within.
            Ensures-if (ltb 0 min_size && ltb (remaining r / min_size) len)
              (λ _. reject_lem min_size r v)
              (λ fits. returns (
                Kept-refl v,
                inr (
                  ground arith,
                  ltb→le _ _ within,
                  omega (
                    arith,
                    fits_of_test min_size len (remaining r) fits,
                    remaining_lem r v,
                    v.in_bounds,
                  ),
                ),
              ))))

-- The length that is read back is the null marker, or is not negative, is within the limit of the
-- options, and has its elements, of the given least size each, within the unread input. Reading it
-- never touches memory outside the input and replaces no error.
pub read_collection_length_lem :
    (min_size : ℕ) (r : Reader)
    → IsValid r
    → Ensures
        (λ len r'. Kept r r' × Plausible min_size len r')
        (Raised r)
        (read_collection_length min_size r)
unfolding read_collection_length
read_collection_length_lem min_size r v = Ensures-bind (read_raw-Safe 4 r v) (λ len s q.
    Ensures-weaken (check_collection_length_lem min_size len s q.valid)
      (λ a t l. (Kept-trans q l.0, l.1)) (λ t l. Raised-trans q l))

pub read_collection_length-Safe : (min_size : ℕ) → Safe (read_collection_length min_size)
read_collection_length-Safe min_size r v =
    Ensures-weaken (read_collection_length_lem min_size r v) (λ a s q. q.0) (λ s t. t)

-- A raw read behind a passed bounds check.
pub read_raw_passes :
    (w : ℕ) (r : Reader)
    → IsValid r
    → failed r ≡ false
    → r.pos + w ≤ length r.bytes
    → read_raw w r ≡ returned (from_le (take w (drop r.pos r.bytes))) (record r { pos = r.pos + w })
unfolding read_raw
read_raw_passes w r v clean bound =
    rw (ensure_bytes_passes w r v clean bound, take_bytes_lem w r bound)
