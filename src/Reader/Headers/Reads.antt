-- ===== src/Reader/Headers/Reads.antt =====
-- include/memorypack/core.hpp, MemoryPackReader: headers and primitives read off their encodings.
use memory_pack_cpp.Base.{
  ℕ, zero, suc, ◌+◌, ◌*◌, ◌/◌, ◌≤◌, ◌<◌, ◌^◌, ◌≡◌, refl, Bool, true, false, not, List, [], ◌∷◌,
  ◌++◌, length, ltb, leb, ◌==◌, ◌&&◌, from_le, to_le, none, some, arith, lt→ltb, le→ltb,
  length-to_le, from_le-to_le, ne→==false, lt→leb, Bool-cases, inl, inr,
}
use memory_pack_cpp.Wire.{bool_byte, union_wire, member_length_wire}
use native.Mathlib.Nat.{le-div_iff_mul-le}
use memory_pack_cpp.Outcome.{returned, ◌>>=◌}
use memory_pack_cpp.Reader.{Reader, Read, take_bytes, remaining}
use memory_pack_cpp.Reader.Safe.{remaining_lem, load_lem}
use memory_pack_cpp.Reader.Reads.{
  Ready, Reads, Ahead, advanced, Ahead-bound, Reads-bind, Reads-pure, Reads-assoc, Reads-map,
  checked-Reads, take_bytes-Reads,
}
use memory_pack_cpp.Reader.Headers.{
  read_byte, read_raw, read_bool, read_object_header, peek_is_null, read_collection_length,
  check_collection_length, read_union_header, read_varint_length, null_collection, first_byte,
  null_header, null_object,
}

pub test_of_fits :
    (min_size n left : ℕ)
    → n * min_size ≤ left
    → (ltb 0 min_size && ltb (left / min_size) n) ≡ false
test_of_fits zero n left h = refl
test_of_fits (suc m) n left h =
    rw (lt→ltb 0 (suc m) (omega arith))
      (le→ltb (left / suc m) n ((le-div_iff_mul-le (omega arith)).1 h))

module _ {levels : ℕ} where
  pub read_byte-Reads : (b : ℕ) → Reads levels read_byte (b ∷ []) b
  unfolding read_byte
  read_byte-Reads b =
      checked-Reads 1 _ _ (b ∷ []) (omega arith)
        (Reads-map (take_bytes 1) first_byte (b ∷ []) (take_bytes-Reads 1 (b ∷ []) refl))

  -- Any `w` bytes, as the number that they stand for.
  pub read_raw-Reads_any :
      (w : ℕ) (bs : List ℕ) → length bs ≡ w → Reads levels (read_raw w) bs (from_le bs)
  unfolding read_raw
  read_raw-Reads_any w bs e =
      checked-Reads w _ _ bs (omega arith)
        (Reads-map {levels = levels} (take_bytes w) from_le bs (take_bytes-Reads w bs e))

  pub read_raw-Reads : (w v : ℕ) → v < 256 ^ w → Reads levels (read_raw w) (to_le w v) v
  unfolding read_raw
  read_raw-Reads w v h = checked-Reads w _ _ (to_le w v) (omega (arith, length-to_le w v)) (
      rw (from_le-to_le w v h) at (
        Reads-map {levels = levels} (take_bytes w) from_le (to_le w v)
          (take_bytes-Reads w (to_le w v) (length-to_le w v))))

  pub read_bool-Reads : (b : Bool) → Reads levels read_bool (bool_byte b ∷ []) b
  unfolding read_bool
  read_bool-Reads true = Reads-map read_byte (λ b. not (b == 0)) (1 ∷ []) (read_byte-Reads 1)
  read_bool-Reads false = Reads-map read_byte (λ b. not (b == 0)) (0 ∷ []) (read_byte-Reads 0)

  pub Reads-cons :
      {A : Type 0} (b : ℕ) (f : ℕ → Read A) (back : List ℕ) {a : A}
      → Reads levels (f b) back a
      → Reads levels (read_byte >>= f) (b ∷ back) a
  Reads-cons b f back h = Reads-bind read_byte f (b ∷ []) back (read_byte-Reads b) h

  -- The same where the first byte is all there is.
  Reads-one :
      {A : Type 0} (b : ℕ) (f : ℕ → Read A) {a : A}
      → Reads levels (f b) [] a
      → Reads levels (read_byte >>= f) (b ∷ []) a
  Reads-one b f h = Reads-cons b f [] h

  pub read_object_header-Reads :
      (n : ℕ)
      → n ≤ 249
      → Reads levels read_object_header (n ∷ []) (record { count = n; is_null = false })
  unfolding read_object_header
  read_object_header-Reads n h =
      Reads-one n _ (rw (ne→==false n 255 (omega arith), le→ltb 249 n h) (Reads-pure _))

  pub read_null_header-Reads : Reads levels read_object_header (255 ∷ []) null_header
  unfolding read_object_header
  read_null_header-Reads = Reads-one 255 _ (Reads-pure _)

  -- `ReadUnionHeader` takes the one byte of a tag below 250, or the three bytes of a wider one, off
  -- the front of the unread input and gives the tag. The reader has no error.
  pub read_union_header-Reads :
      (tag : ℕ)
      → tag < 2 ^ 16
      → (r : Reader) (rest : List ℕ) → Ready levels r
      → Ahead r (union_wire tag) rest
      → read_union_header r ≡ returned (some tag) (advanced (length (union_wire tag)) r)
  unfolding read_union_header union_wire
  read_union_header-Reads tag h = elim (Bool-cases (ltb tag 250)) [
    | inl narrow ↦ rw narrow (
        Reads-one tag _ (
          rw
            (
              ne→==false tag 255 (ground arith),
              ne→==false tag 250 (ground arith),
              le→ltb 250 tag (ground arith),
            )
            (Reads-pure (some tag))))
    | inr wide ↦ rw wide (
        Reads-cons 250 _ (to_le 2 tag)
          (Reads-map (read_raw 2) some (to_le 2 tag) (read_raw-Reads 2 tag h)))
  ]

  pub read_null_union-Reads : Reads levels read_union_header (255 ∷ []) none
  unfolding read_union_header
  read_null_union-Reads = Reads-one 255 _ (Reads-pure _)

  -- `ReadVarIntLength` takes the shortest encoding of any length of 32 bits off the front of the
  -- unread input and gives the length. The reader has no error.
  pub read_varint_length-Reads :
      (n : ℕ)
      → n < 2 ^ 32
      → (r : Reader) (rest : List ℕ) → Ready levels r
      → Ahead r (member_length_wire n) rest
      → read_varint_length r ≡ returned n (advanced (length (member_length_wire n)) r)
  unfolding read_varint_length member_length_wire
  read_varint_length-Reads n h = elim (Bool-cases (leb n 127)) [
    | inl single ↦ rw single (Reads-one n _ (rw single (Reads-pure n)))
    | inr more ↦ elim (Bool-cases (leb n 0xFFFF)) [
      | inl two ↦ rw (more, two) (Reads-cons 0x84 _ (to_le 2 n) (read_raw-Reads 2 n (ground arith)))
      | inr four ↦ rw (more, four) (Reads-cons 0x82 _ (to_le 4 n) (read_raw-Reads 4 n h))
    ]
  ]

  check_collection_length-Reads :
      (min_size n : ℕ) (r : Reader)
      → Ready levels r
      → n < 2 ^ 31
      → r.pos + n * min_size ≤ length r.bytes
      → check_collection_length min_size n r ≡ returned n r
  unfolding check_collection_length
  check_collection_length-Reads min_size n r ready h fits =
      let left : n * min_size ≤ remaining r = omega (arith, remaining_lem r ready.valid) in
      rw (
        lt→leb (2 ^ 31) n h,
        le→ltb r.options.max_collection_length n (omega (arith, ready.collections)),
        test_of_fits min_size n (remaining r) left,
      )

  -- An accepted length, when what follows is long enough for its elements.
  pub counted-Reads :
      {A : Type 0} (min_size n : ℕ) (f : ℕ → Read A) (back : List ℕ) {a : A}
      → n < 2 ^ 31
      → n * min_size ≤ length back
      → Reads levels (f n) back a
      → Reads levels (read_collection_length min_size >>= f) (to_le 4 n ++ back) a
  unfolding read_collection_length
  counted-Reads min_size n f back h fits k =
      Reads-assoc (read_raw 4) (check_collection_length min_size) f (to_le 4 n ++ back) (
        Reads-bind (read_raw 4) (λ len. check_collection_length min_size len >>= f) (to_le 4 n) back
          (read_raw-Reads 4 n (omega arith))
          λ r rest ready ahead.
            rw
              (check_collection_length-Reads min_size n r ready h
                (omega (arith, fits, Ahead-bound r back rest ready.valid ahead)))
              (k r rest ready ahead))

  -- A null collection: the length -1.
  pub null_collection-Reads :
      {A : Type 0} (min_size : ℕ) (f : ℕ → Read A) (back : List ℕ) {a : A}
      → Reads levels (f null_collection) back a
      → Reads levels (read_collection_length min_size >>= f) (to_le 4 null_collection ++ back) a
  unfolding read_collection_length check_collection_length
  null_collection-Reads min_size f back k =
      Reads-assoc (read_raw 4) (check_collection_length min_size) f
        (to_le 4 null_collection ++ back)
        (Reads-bind (read_raw 4) (λ len. check_collection_length min_size len >>= f)
          (to_le 4 null_collection) back (read_raw-Reads 4 null_collection (omega arith)) k)

  -- PeekIsNull looks at the next byte and leaves it.
  pub peek_is_null-Reads :
      {A : Type 0} (b : ℕ) (back : List ℕ) (f : Bool → Read A) {a : A}
      → Reads levels (f (b == null_object)) (b ∷ back) a
      → Reads levels (peek_is_null >>= f) (b ∷ back) a
  unfolding peek_is_null
  peek_is_null-Reads b back f h r rest ready ahead =
      let bound = Ahead-bound r (b ∷ back) rest ready.valid ahead in
      rw (lt→leb (length r.bytes) r.pos (omega arith), load_lem 1 r (omega arith))
        (rw ahead (h r rest ready ahead))
