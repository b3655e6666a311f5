-- ===== src/Writer/Appends.antt =====
-- include/memorypack/core.hpp, MemoryPackWriter: every append adds its bytes to what is written,
-- in each of the three buffers, as long as there is room.
mod Room
mod Branches
pub use Room.*
use memory_pack_cpp.Base.{
  subst, ℕ, ◌+◌, ◌-◌, ◌*◌, ◌%◌, ◌≤◌, ◌<◌, ◌^◌, ◌≡◌, ◌∙◌, refl, sym, ap, Bool, true, false, List, [],
  ◌∷◌, ◌++◌, length, take, ltb, leb, ◌==◌, if◌then◌else◌, Option, none, some, arith, append_assoc,
  append-nil, length-append, length-take, ne→==false, le→ltb, lt→leb, lt→ltb,
}
use memory_pack_cpp.Outcome.{MemoryPackError, buffer_overflow, Outcome, returned, pure, ◌>>◌}
use memory_pack_cpp.Writer.{
  Writer, Write, mode, owned_mode, take_buffer, fail, written, resize, double_until, grow_owned,
  append_byte, append_bytes, store_fixed, store_owned, double_until,
}
use memory_pack_cpp.Writer.Buffers.{
  stored, store-some, length-stored, take-stored, length-resize, take-resize, double_until-reaches,
}
use memory_pack_cpp.Writer.Appends.Branches.{
  vector-Appended, fixed-Appended, owned-branch, written-owned,
}

-- `append_bytes` by the buffer that the writer has.
append_bytes_cases :
    (src owned : List ℕ) (owned_pos : ℕ) (vec fixed : Option (List ℕ)) (cap pos : ℕ)
    (error : MemoryPackError) (exceptions : Bool)
    → let w : Writer = record {
      owned = owned;
      owned_pos = owned_pos;
      vec = vec;
      fixed_buf = fixed;
      fixed_cap = cap;
      fixed_pos = pos;
      error = error;
      has_exceptions = exceptions;
    } in
      0 < length src
      → IsValid w
      → HasRoom w src
      → (w' : Writer) × (append_bytes src w ≡ returned tt w') × Wrote w src w'
unfolding append_bytes written
append_bytes_cases src owned owned_pos (some v) fixed cap pos error exceptions some_bytes ok room =
    (
      _,
      rw (ne→==false (length src) 0 (omega arith)),
      vector-Appended src owned v [] owned_pos cap pos error exceptions fixed ok,
    )
append_bytes_cases src owned owned_pos none (some b) cap pos error exceptions some_bytes ok room =
    let inside : pos + length src ≤ cap = omega (arith, written-owned b pos) in
    let (w', e, p) = fixed-Appended src owned [] b owned_pos cap pos error exceptions ok inside in
    (
      w',
      rw (ne→==false (length src) 0 (omega arith), le→ltb (cap - pos) (length src) (omega arith)) e,
      p,
    )
append_bytes_cases src owned owned_pos none none cap pos error exceptions some_bytes ok room =
    let (w', e, p) =
      owned-branch src owned [] [] owned_pos cap pos error exceptions owned
        (ltb (length owned - owned_pos) (length src)) (λ t. ground arith) (λ t. ground arith)
        ok.owned_fits (omega (arith, written-owned owned owned_pos)) in
    (w', rw (ne→==false (length src) 0 (omega arith)) e, p)

-- Where there is room, `AppendBytes` appends exactly its bytes in each of the three modes, whatever
-- error is recorded. The writer stays well-formed and keeps its mode, capacity and error.
pub append_bytes-Writes :
    (src : List ℕ) (w : Writer)
    → IsValid w
    → HasRoom w src
    → (w' : Writer) × (append_bytes src w ≡ returned tt w') × Wrote w src w'
append_bytes-Writes [] w v room = (w, unfold append_bytes in refl, Wrote-nothing w v)
append_bytes-Writes (b ∷ bs) w v room =
    append_bytes_cases (b ∷ bs) w.owned w.owned_pos w.vec w.fixed_buf w.fixed_cap w.fixed_pos
      w.error w.has_exceptions (omega arith) v room

append_byte_cases :
    (b : ℕ) (owned : List ℕ) (owned_pos : ℕ) (vec fixed : Option (List ℕ)) (cap pos : ℕ)
    (error : MemoryPackError) (exceptions : Bool)
    → let w : Writer = record {
      owned = owned;
      owned_pos = owned_pos;
      vec = vec;
      fixed_buf = fixed;
      fixed_cap = cap;
      fixed_pos = pos;
      error = error;
      has_exceptions = exceptions;
    } in
      IsValid w
      → HasRoom w (b ∷ [])
      → (w' : Writer) × (append_byte b w ≡ returned tt w') × Wrote w (b ∷ []) w'
unfolding append_byte written
append_byte_cases b owned owned_pos (some v) fixed cap pos error exceptions ok room =
    (_, refl, vector-Appended (b ∷ []) owned v [] owned_pos cap pos error exceptions fixed ok)
append_byte_cases b owned owned_pos none (some buffer) cap pos error exceptions ok room =
    let inside : pos + 1 ≤ cap = omega (arith, written-owned buffer pos) in
    let (w', e, p) =
      fixed-Appended (b ∷ []) owned [] buffer owned_pos cap pos error exceptions ok inside in
    (w', rw (lt→leb cap pos (omega arith)) e, p)
append_byte_cases b owned owned_pos none none cap pos error exceptions ok room =
    owned-branch (b ∷ []) owned [] [] owned_pos cap pos error exceptions owned
      (leb (length owned) owned_pos) (λ t. ground arith) (λ t. ground arith) ok.owned_fits
      (omega (arith, written-owned owned owned_pos))

-- `AppendByte` with room appends exactly its byte.
pub append_byte-Writes : (b : ℕ) → Writes (append_byte b) (b ∷ [])
append_byte-Writes b w v room =
    append_byte_cases b w.owned w.owned_pos w.vec w.fixed_buf w.fixed_cap w.fixed_pos w.error
      w.has_exceptions v room

take_buffer_cases :
    (owned : List ℕ) (owned_pos : ℕ) (vec fixed : Option (List ℕ)) (cap pos : ℕ)
    (error : MemoryPackError) (exceptions : Bool)
    → let w : Writer = record {
      owned = owned;
      owned_pos = owned_pos;
      vec = vec;
      fixed_buf = fixed;
      fixed_cap = cap;
      fixed_pos = pos;
      error = error;
      has_exceptions = exceptions;
    } in
      IsValid w → mode w ≡ owned_mode → (w' : Writer) × (take_buffer w ≡ returned (written w) w')
unfolding take_buffer written
take_buffer_cases owned owned_pos (some v) fixed cap pos error exceptions ok e = cc
take_buffer_cases owned owned_pos none (some b) cap pos error exceptions ok e = cc
take_buffer_cases owned owned_pos none none cap pos error exceptions ok e =
    let none_missing : owned_pos - length owned ≡ 0 = omega arith in
    let left : Writer = record {
      owned = [];
      owned_pos = 0;
      vec = none;
      fixed_buf = none;
      fixed_cap = cap;
      fixed_pos = pos;
      error = error;
      has_exceptions = exceptions;
    } in
    (left, rw (none_missing, append-nil (take owned_pos owned)))

-- `TakeBuffer` on the owned buffer gives what is written.
pub take_buffer_lem :
    (w : Writer)
    → IsValid w
    → mode w ≡ owned_mode
    → (w' : Writer) × (take_buffer w ≡ returned (written w) w')
take_buffer_lem w ok e =
    take_buffer_cases w.owned w.owned_pos w.vec w.fixed_buf w.fixed_cap w.fixed_pos w.error
      w.has_exceptions ok e
