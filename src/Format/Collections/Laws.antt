-- ===== src/Format/Collections/Laws.antt =====
-- include/memorypack/core.hpp, containers.hpp: collections are safe and lawful where their elements
-- are.
use memory_pack_cpp.Base.{
  ℕ, zero, suc, ◌*◌, ◌≤◌, ◌<◌, ◌^◌, ◌≡◌, List, [], ◌∷◌, ◌++◌, length, All, to_le, if◌then◌else◌,
  arith, length-append, lt→leb, ne→==false,
}
use memory_pack_cpp.Outcome.{returned, pure}
use memory_pack_cpp.Reader.{Reader, IsValid}
use memory_pack_cpp.Reader.Safe.{SafeFrom, Safe, Safe-bind, Safe-pure, Safe-if, is_failed-Safe}
use memory_pack_cpp.Reader.Reads.{
  Ready, Ahead, advanced, Reads, Reads-bind, Reads-pure, Reads-map, is_failed-Reads,
}
use memory_pack_cpp.Reader.Headers.Safe.{read_collection_length-Safe}
use memory_pack_cpp.Reader.Headers.Reads.{counted-Reads}
use memory_pack_cpp.Writer.Appends.{Writes, Writes-then, Writes-nothing}
use memory_pack_cpp.Writer.Headers.{write_collection_header}
use memory_pack_cpp.Writer.Headers.Writes.{counted-Writes, write_collection_header-Writes}
use memory_pack_cpp.Format.{Formatter, Lawful, IsSafe, min_encoded_size, container_min_size}
use memory_pack_cpp.Format.Collections.{
  is_empty_length, write_items, write_collection, read_items, read_collection_by, read_collection,
  vector_formatter, sequence_formatter,
}

module _ {A : Type 0} (F : Formatter A) (safe : IsSafe F) where
  read_items-Safe : (left : ℕ) → Safe (read_items F left)
  unfolding read_items
  read_items-Safe zero = Safe-pure []
  read_items-Safe (suc left) = Safe-bind is_failed-Safe (λ bad.
      Safe-if bad (Safe-pure []) (
        Safe-bind (safe F.init) (λ v. Safe-bind (read_items-Safe left) (λ vs. Safe-pure (v ∷ vs)))))

  pub read_collection_by-Safe : (min_size : ℕ) → Safe (read_collection_by F min_size)
  unfolding read_collection_by
  read_collection_by-Safe min_size =
      Safe-bind (read_collection_length-Safe min_size)
        (λ len. Safe-if (is_empty_length len) (Safe-pure []) (read_items-Safe len))

  -- Reading a vector of elements that are safe to read touches no memory outside the input, keeps
  -- the position in bounds and replaces no error, whatever the input holds.
  pub vector-IsSafe :
      (old : List A) (r : Reader) → IsValid r → SafeFrom r ((vector_formatter F).deserialize old r)
  unfolding read_collection
  vector-IsSafe old = read_collection_by-Safe (min_encoded_size F.kind)

module _ {A : Type 0} (F : Formatter A) (L : Lawful F) where
  open L use {wire, IsEncodable, levels, writes, reads, large}

  abbrev pub items_wire : List A → List ℕ
  items_wire [] = []
  items_wire (v ∷ vs) = wire v ++ items_wire vs

  -- The length, then the elements.
  abbrev pub collection_wire : List A → List ℕ
  collection_wire vs = to_le 4 (length vs) ++ items_wire vs

  write_items-Writes :
      (vs : List A) → All IsEncodable vs → Writes (write_items F vs) (items_wire vs)
  unfolding write_items
  write_items-Writes [] h = Writes-nothing
  write_items-Writes (v ∷ vs) h =
      Writes-then (F.serialize v) (write_items F vs) (wire v) (items_wire vs) (writes v h.0)
        (write_items-Writes vs h.1)

  pub write_collection-Writes :
      (vs : List A)
      → All IsEncodable vs
      → length vs < 2 ^ 31
      → Writes (write_collection F vs) (collection_wire vs)
  unfolding write_collection
  write_collection-Writes vs h short = counted-Writes (length vs) _ _ short (
      Writes-then (write_collection_header (length vs)) (write_items F vs) (to_le 4 (length vs))
        (items_wire vs) (write_collection_header-Writes (length vs)) (write_items-Writes vs h))

  read_items-Reads :
      (n : ℕ) (vs : List A)
      → levels ≤ n
      → All IsEncodable vs
      → Reads n (read_items F (length vs)) (items_wire vs) vs
  unfolding read_items
  read_items-Reads n [] deep h = Reads-pure []
  read_items-Reads n (v ∷ vs) deep h = is_failed-Reads _ (wire v ++ items_wire vs) (
      Reads-bind (F.deserialize F.init) _ (wire v) (items_wire vs) (reads n F.init v deep h.0) (
        Reads-map (read_items F (length vs)) (λ us. v ∷ us) (items_wire vs)
          (read_items-Reads n vs deep h.1)))

  pub items_fit :
      (min_size : ℕ)
      → ((v : A) → IsEncodable v → min_size ≤ length (wire v))
      → (vs : List A) → All IsEncodable vs
      → length vs * min_size ≤ length (items_wire vs)
  items_fit min_size least [] h = omega arith
  items_fit min_size least (v ∷ vs) h =
      omega (
        arith,
        length-append (wire v) (items_wire vs),
        least v h.0,
        items_fit min_size least vs h.1,
      )

  -- The reader of a collection takes the encoding of its elements off the front of the unread input
  -- and gives them, where each takes the least size at least that the length check asks for. The
  -- reader has no error, limits that allow every int32 length, and levels enough left.
  pub read_collection_by-Reads :
      (min_size n : ℕ) (vs : List A)
      → ((v : A) → IsEncodable v → min_size ≤ length (wire v))
      → levels ≤ n
      → All IsEncodable vs
      → length vs < 2 ^ 31
      → (r : Reader) (rest : List ℕ) → Ready n r
      → Ahead r (collection_wire vs) rest
      → read_collection_by F min_size r ≡ returned vs (advanced (length (collection_wire vs)) r)
  unfolding read_collection_by
  read_collection_by-Reads min_size n vs least deep h short =
      counted-Reads min_size (length vs) _ (items_wire vs) short (items_fit min_size least vs h)
        (rest vs h short)
    where
      rest :
          (vs : List A)
          → All IsEncodable vs
          → length vs < 2 ^ 31
          → Reads n
              (if is_empty_length (length vs) then pure [] else read_items F (length vs))
              (items_wire vs)
              vs
      rest [] h short = Reads-pure []
      rest (v ∷ vs) h short =
          rw (lt→leb (2 ^ 31) (length (v ∷ vs)) short, ne→==false (length (v ∷ vs)) 0 (omega arith))
            (read_items-Reads n (v ∷ vs) deep h)

  -- A vector of lawful elements is lawful.
  unfoldable pub vector-Lawful : Lawful (vector_formatter F)
  unfolding read_collection min_encoded_size container_min_size
  vector-Lawful = record {
    wire = collection_wire;
    IsEncodable = λ vs. All IsEncodable vs × (length vs < 2 ^ 31);
    levels = levels;
    writes = λ vs h. write_collection-Writes vs h.0 h.1;
    reads = λ n old vs deep h.
        read_collection_by-Reads (min_encoded_size F.kind) n vs (λ v e. (large v e).0) deep h.0 h.1;
    large = λ vs h. omega arith;
  }

  -- So is a deque or a list of them.
  unfoldable pub sequence-Lawful : Lawful (sequence_formatter F)
  unfolding min_encoded_size container_min_size
  sequence-Lawful = record {
    wire = collection_wire;
    IsEncodable = λ vs. All IsEncodable vs × (length vs < 2 ^ 31);
    levels = levels;
    writes = λ vs h. write_collection-Writes vs h.0 h.1;
    reads = λ n old vs deep h.
        read_collection_by-Reads (container_min_size F.kind) n vs (λ v e. (large v e).1) deep h.0
          h.1;
    large = λ vs h. omega arith;
  }
