-- ===== src/Format/Optionals/Laws.antt =====
-- include/memorypack/containers.hpp, core.hpp: optional collections and nullable objects.
use memory_pack_cpp.Base.{
  ℕ, ◌≤◌, ◌<◌, ◌^◌, ◌≡◌, refl, inl, inr, ◌+◌, Bool, Bool-cases, ltb→le, true, false, List, [], ◌∷◌,
  ◌++◌, length, Option, none, some, to_le, ltb, ◌==◌, arith, ne→==false, le→ltb,
}
use memory_pack_cpp.Outcome.{returned, pure, ◌>>=◌, Ensures-if, returns}
use memory_pack_cpp.Reader.{Reader, Read, remaining, failed, ensure_bytes, advance}
use memory_pack_cpp.Reader.Safe.{
  Safe, Kept-refl, ensure_bytes_passes, take_bytes_lem, Safe-bind, Safe-pure, Safe-if,
  remaining_lem, advance-Safe,
}
use memory_pack_cpp.Reader.Reads.{
  Ready, Ahead, Ahead-bound, advanced, Reads, Reads-map, Reads-pure, checked-Reads, move-Reads,
}
use memory_pack_cpp.Reader.Headers.{null_object, null_collection, read_raw, read_collection_header}
use memory_pack_cpp.Reader.Headers.Reads.{Reads-cons, read_raw-Reads}
use memory_pack_cpp.Writer.{append_byte}
use memory_pack_cpp.Writer.Appends.{Writes, Writes-then, append_byte-Writes}
use memory_pack_cpp.Writer.Headers.{write_null_object_header, write_null_collection_header}
use memory_pack_cpp.Writer.Headers.Writes.{write_raw-Writes}
use memory_pack_cpp.Format.{Formatter, Lawful, IsSafe}
use memory_pack_cpp.Format.Optionals.{
  peek_is_null_collection, write_optional_collection, read_optional_collection,
  write_nullable_object, read_nullable_object, optional_collection_formatter,
}

ensure_bytes-failed : (n : ℕ) (r : Reader) → failed r ≡ true → ensure_bytes n r ≡ returned false r
unfolding ensure_bytes
ensure_bytes-failed n r bad = rw bad refl

peek_is_null_collection-Reads :
    {A : Type 0} {levels : ℕ} (n : ℕ) (back : List ℕ) (f : Bool → Read A) {a : A}
    → n < 2 ^ 32
    → Reads levels (f (n == null_collection)) (to_le 4 n ++ back) a
    → Reads levels (peek_is_null_collection >>= f) (to_le 4 n ++ back) a
unfolding peek_is_null_collection read_collection_header
peek_is_null_collection-Reads {levels = levels} n back f fits h r rest ready ahead =
    let bound = Ahead-bound r (to_le 4 n ++ back) rest ready.valid ahead in
    let enough : ltb (remaining r) 4 ≡ false =
      le→ltb (remaining r) 4 (omega (arith, remaining_lem r ready.valid)) in
    rw (enough, read_raw-Reads 4 n fits r (back ++ rest) ready ahead) (h r rest ready ahead)

module _ {A : Type 0} (F : Formatter A) (L : Lawful F) where
  -- The encodings start with a length that is not negative.
  abbrev pub IsCounted : Type 0
  IsCounted =
      (v : A)
      → L.IsEncodable v
      → (n : ℕ) × (back : List ℕ) × (L.wire v ≡ to_le 4 n ++ back) × (n < 2 ^ 31)

  abbrev pub optional_collection_wire : Option A → List ℕ
  optional_collection_wire none = to_le 4 null_collection
  optional_collection_wire (some v) = L.wire v

  abbrev pub OptionalEncodable : Option A → Type 0
  OptionalEncodable none = Unit {0}
  OptionalEncodable (some v) = L.IsEncodable v

  pub optional_collection-Writes :
      (o : Option A)
      → OptionalEncodable o
      → Writes (write_optional_collection F o) (optional_collection_wire o)
  unfolding write_optional_collection write_null_collection_header
  optional_collection-Writes none h = write_raw-Writes 4 null_collection
  optional_collection-Writes (some v) h = L.writes v h

  advance-Reads : {levels : ℕ} (wire : List ℕ) → Reads levels (advance (length wire)) wire tt
  unfolding advance
  advance-Reads wire =
      checked-Reads (length wire) _ _ wire (omega arith) (move-Reads (length wire) wire refl)

  -- The reader of an optional collection takes the encoding of either off the front of the unread input
  -- and gives it back: the length -1 stands for no collection, an empty one has the length 0. The
  -- encodings start with a length, the reader has no error, limits that allow every int32 length,
  -- and levels enough left.
  pub optional_collection-Reads :
      IsCounted
      → (n : ℕ) (o : Option A) → L.levels ≤ n
      → OptionalEncodable o
      → (r : Reader) (rest : List ℕ) → Ready n r
      → Ahead r (optional_collection_wire o) rest
      → read_optional_collection F r ≡ returned o (advanced (length (optional_collection_wire o)) r)
  unfolding read_optional_collection
  optional_collection-Reads counted n none deep h =
      peek_is_null_collection-Reads null_collection [] _ (omega arith) (
        Reads-map (advance 4) (λ _. none) (to_le 4 null_collection)
          (advance-Reads (to_le 4 null_collection)))
  optional_collection-Reads counted n (some v) deep h =
      let (len, back, e, small) = counted v h in
      let rest : Reads n (F.deserialize F.init >>= λ x. pure (some x)) (L.wire v) (some v) =
        Reads-map (F.deserialize F.init) some (L.wire v) (L.reads n F.init v deep h) in
      rw e (
        peek_is_null_collection-Reads len back _ (omega arith)
          (rw (ne→==false len null_collection (omega arith)) (rw e at rest)))

  -- A null object, or the byte 1 and the encoding of the value.
  abbrev pub nullable_object_wire : Option A → List ℕ
  nullable_object_wire none = null_object ∷ []
  nullable_object_wire (some v) = 1 ∷ L.wire v

  pub nullable_object-Writes :
      (o : Option A)
      → OptionalEncodable o
      → Writes (write_nullable_object F o) (nullable_object_wire o)
  unfolding write_nullable_object write_null_object_header
  nullable_object-Writes none h = append_byte-Writes null_object
  nullable_object-Writes (some v) h =
      Writes-then (append_byte 1) (F.serialize v) (1 ∷ []) (L.wire v) (append_byte-Writes 1)
        (L.writes v h)

  -- The reader of a nullable object takes the encoding of either off the front of the unread input and
  -- gives it back, whatever byte the encoding of the value starts with. The reader has no error,
  -- limits that allow every int32 length, and levels enough left.
  pub nullable_object-Reads :
      (n : ℕ) (o : Option A)
      → L.levels ≤ n
      → OptionalEncodable o
      → (r : Reader) (rest : List ℕ) → Ready n r
      → Ahead r (nullable_object_wire o) rest
      → read_nullable_object F r ≡ returned o (advanced (length (nullable_object_wire o)) r)
  unfolding read_nullable_object
  nullable_object-Reads n none deep h = Reads-cons null_object _ [] (Reads-pure none)
  nullable_object-Reads n (some v) deep h =
      Reads-cons 1 _ (L.wire v)
        (Reads-map (F.deserialize F.init) some (L.wire v) (L.reads n F.init v deep h))

-- The look at the length never fails: it is made where four bytes are left.
peek_is_null_collection-Safe : Safe peek_is_null_collection
unfolding peek_is_null_collection read_collection_header read_raw
peek_is_null_collection-Safe r v =
    Ensures-if (ltb (remaining r) 4) (λ _. returns (Kept-refl v))
      λ enough.
        let bound : r.pos + 4 ≤ length r.bytes =
          omega (arith, ltb→le (remaining r) 4 enough, remaining_lem r v, v.in_bounds) in
        elim (Bool-cases (failed r)) [
          | inl bad ↦ rw (ensure_bytes-failed 4 r bad) (returns (Kept-refl v))
          | inr clean ↦
              rw (ensure_bytes_passes 4 r v clean bound, take_bytes_lem 4 r bound)
                (returns (Kept-refl v))
        ]

pub optional_collection-IsSafe :
    {A : Type 0} (F : Formatter A) → IsSafe F → IsSafe (optional_collection_formatter F)
unfolding read_optional_collection
optional_collection-IsSafe F safe old = Safe-bind peek_is_null_collection-Safe (λ is_null.
    Safe-if is_null (Safe-bind (advance-Safe 4) (λ _. Safe-pure none))
      (Safe-bind (safe F.init) (λ v. Safe-pure (some v))))
