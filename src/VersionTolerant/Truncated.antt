-- ===== src/VersionTolerant/Truncated.antt =====
-- include/memorypack/core.hpp, VersionTolerantReader: a truncated object in the build without
-- exceptions.
use memory_pack_cpp.Base.{ℕ, ◌≤◌, ◌≡◌, false, [], ◌∷◌, arith, suc, le→ltb, ne→==false, lt→leb}
use memory_pack_cpp.Outcome.{Outcome, fault, ◌>>=◌, returned, buffer_underflow}
use memory_pack_cpp.Reader.{
  ReaderOptions, Reader, new_reader, seek, is_failed, get_position, ensure_bytes, take_bytes,
}
use memory_pack_cpp.Reader.Headers.{read_object_header, read_varint_length, read_byte}
use memory_pack_cpp.Format.{Formatter}
use memory_pack_cpp.VersionTolerant.{open_object, read_member, MemberRead}

-- Two members read one after the other.
abbrev pub read_two : {A : Type 0} → Formatter A → A → Reader → Outcome Reader (MemberRead A)
read_two F out =
    open_object >>= λ vt. read_member F vt out >>= λ first. read_member F first.object first.out

-- The reader that the constructor leaves on an object that ends behind its member count.
abbrev stopped : ReaderOptions → ℕ → Reader
stopped options count = record (new_reader false options (count ∷ [])) {
  pos = 1;
  error = buffer_underflow;
}

open_truncated :
    (options : ReaderOptions) (left : ℕ)
    → suc (suc left) ≤ 249
    → open_object (new_reader false options (suc (suc left) ∷ []))
      ≡ returned
          (record {
            lengths = 0 ∷ [];
            count = suc (suc left);
            index = 0;
            next = 1;
            is_null = false;
          })
          (stopped options (suc (suc left)))
unfolding open_object read_object_header read_varint_length read_byte ensure_bytes take_bytes
    is_failed get_position
open_truncated options left h =
    rw (ne→==false (suc (suc left)) 255 (omega arith), le→ltb 249 (suc (suc left)) h)

-- In the build without exceptions an object that announces two members or more and ends there
-- makes the second ReadMember index `lengths_` out of its bounds.
pub read_two-fault :
    (options : ReaderOptions) {A : Type 0} (F : Formatter A) (out : A) (left : ℕ)
    → suc (suc left) ≤ 249
    → read_two F out (new_reader false options (suc (suc left) ∷ [])) ≡ fault
unfolding read_member seek is_failed
read_two-fault options F out left h = rw (
  open_truncated options left h,
  lt→leb (suc (suc left)) 0 (omega arith),
  lt→leb (suc (suc left)) 1 (omega arith),
)
