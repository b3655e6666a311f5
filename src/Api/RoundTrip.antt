-- ===== src/Api/RoundTrip.antt =====
-- include/memorypack/core.hpp: what Serialize wrote, Deserialize reads back.
use memory_pack_cpp.Base.{
  ℕ, ◌+◌, ◌≤◌, ◌<◌, ◌^◌, ◌≡◌, refl, sym, Bool, List, [], ◌++◌, length, arith, append-nil, le→leb,
}
use memory_pack_cpp.Outcome.{returned}
use memory_pack_cpp.Reader.{new_reader, default_options, require_end}
use memory_pack_cpp.Reader.Reads.{Ready, advanced}
use memory_pack_cpp.Writer.{new_writer, written}
use memory_pack_cpp.Writer.Appends.{take_buffer_lem}
use memory_pack_cpp.Format.{Formatter, Lawful}
use memory_pack_cpp.Api.{value, serialize, deserialize, deserialize_exact}

module _ (exceptions : Bool) {A : Type 0} (F : Formatter A) (L : Lawful F) where
  start-Ready :
      (input : List ℕ) (n : ℕ)
      → length input < 2 ^ 64
      → n ≤ 256
      → Ready n (new_reader exceptions default_options input)
  start-Ready input n h deep = record {
    valid = record { in_bounds = omega arith; fits = h };
    clean = refl;
    collections = omega arith;
    strings = omega arith;
    levels_left = omega arith;
    depth_fits = omega arith;
  }

  reads_back :
      (v : A) (rest : List ℕ)
      → L.IsEncodable v
      → L.levels ≤ 256
      → length (L.wire v ++ rest) < 2 ^ 64
      → F.deserialize F.init (new_reader exceptions default_options (L.wire v ++ rest))
        ≡ returned v (
            advanced (length (L.wire v)) (new_reader exceptions default_options (L.wire v ++ rest)))
  reads_back v rest h deep small =
      L.reads 256 F.init v deep h _ rest (start-Ready (L.wire v ++ rest) 256 small (omega arith))
        refl

  -- Deserialize gives the value whose encoding the input starts with.
  pub deserialize-wire :
      (v : A) (rest : List ℕ)
      → L.IsEncodable v
      → L.levels ≤ 256
      → length (L.wire v ++ rest) < 2 ^ 64
      → deserialize exceptions F (L.wire v ++ rest) ≡ value v
  unfolding deserialize
  deserialize-wire v rest h deep small = rw (reads_back v rest h deep small)

  -- Serialize gives exactly the encoding.
  pub serialize-wire :
      (v : A)
      → L.IsEncodable v
      → length (L.wire v) ≤ 2 ^ 62
      → serialize exceptions F v ≡ value (L.wire v)
  unfolding serialize written
  serialize-wire v h small =
      let (w, e, p) =
        L.writes v h (new_writer exceptions) (record { owned_fits = omega arith; fixed_fits = tt })
          (omega arith) in
      let (w', t) = take_buffer_lem w p.valid p.same_mode in rw (e, t, p.appended)

  pub deserialize_exact-wire :
      (v : A)
      → L.IsEncodable v
      → L.levels ≤ 256
      → length (L.wire v) < 2 ^ 64
      → deserialize_exact exceptions F (L.wire v) ≡ value v
  unfolding deserialize_exact require_end
  deserialize_exact-wire v h deep small =
      let r = new_reader exceptions default_options (L.wire v) in
      let read =
        L.reads 256 F.init v deep h r [] (start-Ready (L.wire v) 256 small (omega arith))
          (sym (append-nil (L.wire v))) in
      rw (read, le→leb (length (L.wire v)) (0 + length (L.wire v)) (omega arith))

  -- A value comes back from its own serialization, with no input left over: `Serialize` returns
  -- bytes, and `DeserializeExact` of them returns the value, in either build. The value is
  -- encodable, nests at most 256 levels and has an encoding that memory can hold.
  pub deserialize_exact-serialize :
      (v : A)
      → L.IsEncodable v
      → L.levels ≤ 256
      → length (L.wire v) ≤ 2 ^ 62
      → (bytes : List ℕ) × (serialize exceptions F v ≡ value bytes)
        × (deserialize_exact exceptions F bytes ≡ value v)
  deserialize_exact-serialize v h deep small =
      (L.wire v, serialize-wire v h small, deserialize_exact-wire v h deep (omega arith))
