-- ===== src/Format/Nullable/Laws.antt =====
-- include/memorypack/containers.hpp, core.hpp: optional values and pointers.
use memory_pack_cpp.Base.{
  ℕ, ◌-◌, ◌≤◌, ◌<◌, ◌^◌, ◌≡◌, ◌≢◌, refl, subst, List, [], ◌∷◌, ◌++◌, take, drop, replicate, length,
  Option, none, some, to_le, arith, ne→==false, length-append, length-to_le, length-replicate,
  drop-append, take-length, from_le-to_le,
}
use memory_pack_cpp.Outcome.{returned, pure, ◌>>=◌}
use memory_pack_cpp.Reader.{Reader, take_bytes}
use memory_pack_cpp.Reader.Safe.{Safe-bind, Safe-pure, Safe-if, checked-Safe}
use memory_pack_cpp.Reader.Reads.{
  Ready, Ahead, advanced, Reads, Reads-map, checked-Reads, take_bytes-Reads, Reads-pure,
}
use memory_pack_cpp.Reader.Headers.{null_object}
use memory_pack_cpp.Reader.Headers.Safe.{read_byte-Safe, peek_is_null-Safe}
use memory_pack_cpp.Reader.Headers.Reads.{Reads-cons, peek_is_null-Reads}
use memory_pack_cpp.Writer.{Writer}
use memory_pack_cpp.Writer.Appends.{
  IsValid, HasRoom, Wrote, Writes, append_byte-Writes, append_bytes-Writes,
}
use memory_pack_cpp.Writer.Headers.{write_null_object_header}
use memory_pack_cpp.Format.{Formatter, Lawful, IsSafe, min_encoded_size, container_min_size}
use memory_pack_cpp.Format.Nullable.{
  nullable_size, write_nullable, read_nullable, nullable_value_of, nullable_formatter,
  write_reference, read_reference, reference_formatter,
}

pub nullable-IsSafe : (size : ℕ) → IsSafe (nullable_formatter size)
unfolding read_nullable
nullable-IsSafe size old = checked-Safe (nullable_size size) _ none (λ src. Safe-pure _)

-- The struct Nullable<T>: the flag, padding up to the alignment, the value.
abbrev pub nullable_wire : ℕ → Option ℕ → List ℕ
nullable_wire size none = 0 ∷ replicate (nullable_size size - 1) 0
nullable_wire size (some v) = 1 ∷ (replicate (size - 1) 0 ++ to_le size v)

abbrev pub NullableFits : ℕ → Option ℕ → Type 0
NullableFits size none = Unit {0}
NullableFits size (some v) = v < 256 ^ size

pub length-nullable_wire :
    (size : ℕ) (o : Option ℕ) → 0 < size → length (nullable_wire size o) ≡ nullable_size size
length-nullable_wire size none h =
    omega (arith, length-replicate {A = ℕ} (nullable_size size - 1) 0)
length-nullable_wire size (some v) h = omega (
  arith,
  length-append (replicate (size - 1) 0) (to_le size v),
  length-replicate {A = ℕ} (size - 1) 0,
  length-to_le size v,
)

pub nullable_value-wire :
    (size : ℕ) (o : Option ℕ)
    → 0 < size
    → NullableFits size o
    → nullable_value_of size (nullable_wire size o) ≡ o
nullable_value-wire size none h fits = refl
nullable_value-wire size (some v) h fits =
    let front : List ℕ = 1 ∷ replicate (size - 1) 0 in
    let e : length front ≡ size = omega (arith, length-replicate {A = ℕ} (size - 1) 0) in
    let value : drop size (front ++ to_le size v) ≡ to_le size v =
      subst (λ k. drop k (front ++ to_le size v) ≡ to_le size v) e
        (drop-append front (to_le size v)) in
    let whole : take size (to_le size v) ≡ to_le size v =
      subst (λ k. take k (to_le size v) ≡ to_le size v) (length-to_le size v)
        (take-length (to_le size v)) in
    rw (value, whole, from_le-to_le size v fits)

pub nullable-Writes :
    (size : ℕ) (o : Option ℕ) → Writes (write_nullable size o) (nullable_wire size o)
unfolding write_nullable
nullable-Writes size none = append_bytes-Writes _
nullable-Writes size (some v) = append_bytes-Writes _

-- Nullable numbers are lawful.
unfoldable pub nullable-Lawful : (size : ℕ) → 0 < size → Lawful (nullable_formatter size)
unfolding min_encoded_size container_min_size read_nullable
nullable-Lawful size h = record {
  wire = nullable_wire size;
  IsEncodable = NullableFits size;
  levels = 0;
  writes = λ o _. nullable-Writes size o;
  reads = λ n old o _ fits.
      checked-Reads (nullable_size size) _ _ (nullable_wire size o)
        (omega (arith, length-nullable_wire size o h))
        (rw (nullable_value-wire size o h fits) at (
          Reads-map {levels = n} (take_bytes (nullable_size size)) (nullable_value_of size)
            (nullable_wire size o)
            (take_bytes-Reads (nullable_size size) (nullable_wire size o)
              (length-nullable_wire size o h))));
  large = λ o _. omega (arith, length-nullable_wire size o h);
}

module _ {A : Type 0} (F : Formatter A) where
  pub reference-IsSafe : IsSafe F → IsSafe (reference_formatter F)
  unfolding read_reference
  reference-IsSafe safe old = Safe-bind peek_is_null-Safe (λ is_null.
      Safe-if is_null (Safe-bind read_byte-Safe (λ _. Safe-pure none))
        (Safe-bind (safe F.init) (λ v. Safe-pure (some v))))

  pub read_null_reference : (n : ℕ) → Reads n (read_reference F) (255 ∷ []) none
  unfolding read_reference
  read_null_reference n = peek_is_null-Reads 255 [] _ (Reads-cons 255 _ [] (Reads-pure none))

module _ {A : Type 0} (F : Formatter A) (L : Lawful F) where
  -- No encoding starts with the byte of a null object.
  abbrev pub IsHeaded : Type 0
  IsHeaded =
      (v : A)
      → L.IsEncodable v
      → (b : ℕ) × (back : List ℕ) × (L.wire v ≡ b ∷ back) × (b ≢ null_object)

  abbrev pub reference_wire : Option A → List ℕ
  reference_wire none = 255 ∷ []
  reference_wire (some v) = L.wire v

  abbrev pub ReferenceEncodable : Option A → Type 0
  ReferenceEncodable none = Unit {0}
  ReferenceEncodable (some v) = L.IsEncodable v

  pub reference-Writes :
      (o : Option A) → ReferenceEncodable o → Writes (write_reference F o) (reference_wire o)
  unfolding write_reference write_null_object_header
  reference-Writes none h = append_byte-Writes 255
  reference-Writes (some v) h = L.writes v h

  -- The reader of an optional or a pointer takes the encoding of either off the front of the unread
  -- input and gives it back, where no encoding of a value starts with 255. The reader has no error,
  -- limits that allow every int32 length, and levels enough left.
  pub reference-Reads :
      IsHeaded
      → (n : ℕ) (o : Option A) → L.levels ≤ n
      → ReferenceEncodable o
      → (r : Reader) (rest : List ℕ) → Ready n r
      → Ahead r (reference_wire o) rest
      → read_reference F r ≡ returned o (advanced (length (reference_wire o)) r)
  unfolding read_reference
  reference-Reads headed n none deep h = read_null_reference F n
  reference-Reads headed n (some v) deep h =
      let (b, back, e, ne) = headed v h in
      let rest : Reads n (F.deserialize F.init >>= λ x. pure (some x)) (L.wire v) (some v) =
        Reads-map (F.deserialize F.init) some (L.wire v) (L.reads n F.init v deep h) in
      rw e (peek_is_null-Reads b back _ (rw (ne→==false b null_object ne) (rw e at rest)))

  pub reference_large :
      IsHeaded → (o : Option A) → ReferenceEncodable o → 1 ≤ length (reference_wire o)
  reference_large headed none h = omega arith
  reference_large headed (some v) h = let (b, back, e, ne) = headed v h in rw e (omega arith)

  -- A value whose encoding starts with 255 is lost behind a smart pointer, and behind an optional of a
  -- type with the encoding of objects, where null is the byte 255: it is written like any other, and
  -- read as null from its first byte alone, so that the rest of it is left in the input. The writer
  -- has room, the reader no error.
  pub reference-lost :
      (n : ℕ) (v : A) (back rest : List ℕ) (w : Writer) (r : Reader)
      → L.wire v ≡ 255 ∷ back
      → L.IsEncodable v
      → IsValid w
      → HasRoom w (255 ∷ back)
      → Ready n r
      → Ahead r (255 ∷ back) rest
      → ((w' : Writer) × (write_reference F (some v) w ≡ returned tt w') × Wrote w (255 ∷ back) w')
        × (read_reference F r ≡ returned none (advanced 1 r))
  reference-lost n v back rest w r e h valid room ready ahead =
      let written : Writes (write_reference F (some v)) (255 ∷ back) =
        rw e at (reference-Writes (some v) h) in
      (written w valid room, read_null_reference F n r (back ++ rest) ready ahead)

  -- Optional objects are lawful where no encoding starts with 255.
  unfoldable pub reference-Lawful : IsHeaded → Lawful (reference_formatter F)
  unfolding min_encoded_size container_min_size
  reference-Lawful headed = record {
    wire = reference_wire;
    IsEncodable = ReferenceEncodable;
    levels = L.levels;
    writes = reference-Writes;
    reads = λ n old o deep h. reference-Reads headed n o deep h;
    large = λ o h. omega (arith, reference_large headed o h);
  }
