-- ===== src/Api/Into.antt =====
-- include/memorypack/core.hpp: SerializeTo and TrySerializeTo, into a buffer that has room
-- and into one that has not.
use memory_pack_cpp.Base.{
  ℕ, ◌≤◌, ◌≡◌, ◌∙◌, refl, ap, Bool, false, List, length, Option, none, some, inl, arith,
  length-take,
}
use memory_pack_cpp.Outcome.{MemoryPackError, is_error, Outcome}
use memory_pack_cpp.Writer.{Writer, fixed_writer, written, writer_size}
use memory_pack_cpp.Writer.Appends.{IsValid}
use memory_pack_cpp.Format.{Formatter, Lawful}
use memory_pack_cpp.Api.{value, serialize_to, try_serialize_to}

-- `Size` is the number of bytes that `GetSpan` shows.
size_cases :
    (owned : List ℕ) (owned_pos : ℕ) (vec fixed : Option (List ℕ)) (cap pos : ℕ)
    (error : MemoryPackError) (exceptions : Bool)
    → let w : Writer = record {
      owned = owned;
      owned_pos = owned_pos;
      vec = vec;
      fixed_buf = fixed;
      fixed_cap = cap;
      fixed_pos = pos;
      error = error;
      has_exceptions = exceptions;
    } in
      IsValid w → writer_size w ≡ length (written w)
unfolding writer_size written
size_cases owned owned_pos (some v) fixed cap pos error exceptions ok = refl
size_cases owned owned_pos none (some b) cap pos error exceptions ok =
    let fits = ok.fixed_fits in omega (arith, length-take pos b)
size_cases owned owned_pos none none cap pos error exceptions ok =
    omega (arith, ok.owned_fits, length-take owned_pos owned)

pub writer_size-written : (w : Writer) → IsValid w → writer_size w ≡ length (written w)
writer_size-written w ok =
    size_cases w.owned w.owned_pos w.vec w.fixed_buf w.fixed_cap w.fixed_pos w.error
      w.has_exceptions ok

module _ (exceptions : Bool) {A : Type 0} (F : Formatter A) (L : Lawful F) where
  -- Into a buffer that has room for the encoding of a value, `SerializeTo` writes just the encoding
  -- to the front of the buffer and returns its length, which `TrySerializeTo` returns too, with no
  -- error.
  pub serialize_to-fits :
      (buffer : List ℕ) (v : A)
      → L.IsEncodable v
      → length (L.wire v) ≤ length buffer
      → (w : Writer) × (serialize_to exceptions F buffer v ≡ value (length (L.wire v), w))
        × (try_serialize_to exceptions F buffer v ≡ value (inl (length (L.wire v))))
        × (written w ≡ L.wire v)
  unfolding serialize_to try_serialize_to written
  serialize_to-fits buffer v h room =
      let start : Writer = fixed_writer exceptions buffer in
      let (w, e, p) =
        L.writes v h start (record { owned_fits = omega arith; fixed_fits = (refl, omega arith) })
          (omega arith) in
      let clean : is_error w.error ≡ false = ap is_error p.same_error in
      let size : writer_size w ≡ length (L.wire v) =
        writer_size-written w p.valid ∙ ap length p.appended in
      (w, rw (e, clean, size) refl, rw (e, clean, size) refl, p.appended)
