-- ===== src/VersionTolerant/Grown.antt =====
-- include/memorypack/core.hpp, VersionTolerantReader::ReadMember: members that the sender writes longer
-- than the receiver knows them.
use memory_pack_cpp.Base.{
  ℕ, suc, ◌+◌, ◌≤◌, ◌<◌, ◌≡◌, ◌∙◌, refl, ap, true, false, List, ◌++◌, length, drop, get_elem?, some,
  arith, append_assoc, length-append, length-drop, le→ltb, lt→leb,
}
use memory_pack_cpp.Outcome.{is_error, returned}
use memory_pack_cpp.Reader.{Reader, seek, is_failed}
use memory_pack_cpp.Reader.Reads.{Ready, advanced}
use memory_pack_cpp.Format.{Formatter, Lawful}
use memory_pack_cpp.VersionTolerant.{VersionTolerantReader, has_no_more, member_length, read_member}

seek-inside :
    (position : ℕ) (r : Reader)
    → position ≤ length r.bytes
    → seek position r ≡ returned tt (record r { pos = position })
unfolding seek
seek-inside position r h = rw (le→ltb (length r.bytes) position h)

module _ {A : Type 0} (F : Formatter A) (L : Lawful F) where
  -- A member whose bytes start with the encoding of a value that the receiver knows is read as that
  -- value, and whatever the sender wrote behind it in the same member is skipped: the reader ends
  -- where the next member starts, wherever it stood before. The object has a next member with its
  -- length, its bytes are in the input, and the reader has no error, limits that allow every int32
  -- length, and levels enough left.
  pub read_member-grown :
      (n : ℕ) (vt : VersionTolerantReader) (out v : A) (extra rest : List ℕ) (r : Reader)
      → L.levels ≤ n
      → L.IsEncodable v
      → Ready n r
      → vt.is_null ≡ false
      → vt.index < vt.count
      → get_elem? vt.lengths vt.index ≡ some (length (L.wire v ++ extra))
      → vt.next ≤ length r.bytes
      → drop vt.next r.bytes ≡ (L.wire v ++ extra) ++ rest
      → read_member F vt out r
        ≡ returned
            (record {
              object = record vt {
                index = suc vt.index;
                next = vt.next + length (L.wire v ++ extra);
              };
              out = v;
              found = true;
            })
            (record r { pos = vt.next + length (L.wire v ++ extra) })
  unfolding read_member member_length is_failed
  read_member-grown n vt out v extra rest r deep h ready null more len inside ahead =
      let s : Reader = record r { pos = vt.next } in
      let ready' : Ready n s = record {
        valid = record { in_bounds = inside; fits = ready.valid.fits };
        clean = ready.clean;
        collections = ready.collections;
        strings = ready.strings;
        levels_left = ready.levels_left;
        depth_fits = ready.depth_fits;
      } in
      let read =
        L.reads n out v deep h s (extra ++ rest) ready'
          (ahead ∙ append_assoc (L.wire v) extra rest) in
      let end : vt.next + length (L.wire v ++ extra) ≤ length r.bytes = omega (
        arith,
        ap length ahead,
        length-append (L.wire v ++ extra) rest,
        length-drop vt.next r.bytes,
      ) in
      let clean : is_error r.error ≡ false = ap is_error ready.clean in
      let there : has_no_more vt ≡ false = rw (null, lt→leb vt.count vt.index more) refl in
      let measured : member_length vt r ≡ returned (length (L.wire v ++ extra)) r =
        rw (member_length, len) refl in
      rw
        (
          there,
          measured,
          seek-inside vt.next r inside,
          clean,
          read,
          seek-inside (vt.next + length (L.wire v ++ extra)) (advanced (length (L.wire v)) s) end,
        )
        refl
