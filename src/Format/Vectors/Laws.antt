-- ===== src/Format/Vectors/Laws.antt =====
-- include/memorypack/core.hpp: vectors and arrays read and written as one block.
use memory_pack_cpp.Base.{
  ℕ, zero, suc, ◌*◌, ◌<◌, ◌^◌, ◌≡◌, refl, List, [], ◌∷◌, ◌++◌, length, take, drop, to_le,
  if◌then◌else◌, All, arith, length-append, length-to_le, from_le-to_le, take-append, drop-append,
  ne→==false, lt→leb,
}
use memory_pack_cpp.Outcome.{returned, pure}
use memory_pack_cpp.Reader.{Reader, IsValid, take_bytes}
use memory_pack_cpp.Reader.Safe.{
  Safe, SafeFrom, Safe-bind, Safe-pure, Safe-if, checked-Safe, is_failed-Safe,
}
use memory_pack_cpp.Reader.Reads.{
  Ready, Reads, Ahead, advanced, Reads-pure, Reads-map, checked-Reads, take_bytes-Reads,
}
use memory_pack_cpp.Reader.Headers.Safe.{read_collection_length-Safe}
use memory_pack_cpp.Reader.Headers.Reads.{counted-Reads}
use memory_pack_cpp.Reader.Strings.Safe.{read_string-Safe}
use memory_pack_cpp.Writer.Appends.{Writes, Writes-then, Writes-nothing, append_bytes-Writes}
use memory_pack_cpp.Writer.Headers.{write_collection_header}
use memory_pack_cpp.Writer.Headers.Writes.{counted-Writes, write_collection_header-Writes}
use memory_pack_cpp.Format.{Lawful, IsSafe, min_encoded_size, container_min_size}
use memory_pack_cpp.Format.Collections.{is_empty_length}
use memory_pack_cpp.Format.Vectors.{
  block_of, numbers_of, write_contiguous, write_vector, read_block, read_vector, read_bool_vector,
  read_strings, read_string_vector, number_vector_formatter,
}

pub read_block-Safe : {A : Type 0} (n : ℕ) (d : A) (f : List ℕ → A) → Safe (read_block n d f)
unfolding read_block
read_block-Safe n d f = checked-Safe n (λ bs. pure (f bs)) d (λ bs. Safe-pure (f bs))

-- Reading a vector of an arithmetic type touches no memory outside the input, keeps the position in
-- bounds and replaces no error, whatever the input holds.
pub read_vector-Safe : (size : ℕ) (r : Reader) → IsValid r → SafeFrom r (read_vector size r)
unfolding read_vector
read_vector-Safe size = Safe-bind (read_collection_length-Safe size) (λ len.
    Safe-if (is_empty_length len) (Safe-pure [])
      (read_block-Safe (len * size) [] (numbers_of size len)))

pub read_bool_vector-Safe : Safe read_bool_vector
unfolding read_bool_vector
read_bool_vector-Safe =
    Safe-bind (read_collection_length-Safe 1)
      (λ len. Safe-if (is_empty_length len) (Safe-pure []) (read_block-Safe len [] _))

read_strings-Safe : (left : ℕ) → Safe (read_strings left)
unfolding read_strings
read_strings-Safe zero = Safe-pure []
read_strings-Safe (suc left) = Safe-bind is_failed-Safe (λ bad.
    Safe-if bad (Safe-pure [])
      (Safe-bind read_string-Safe (λ s. Safe-bind (read_strings-Safe left) (λ ss. Safe-pure _))))

pub read_string_vector-Safe : Safe read_string_vector
unfolding read_string_vector
read_string_vector-Safe =
    Safe-bind (read_collection_length-Safe 4)
      (λ len. Safe-if (is_empty_length len) (Safe-pure []) (read_strings-Safe len))

-- Each element is below the bound of its size.
abbrev pub NumbersFit : ℕ → List ℕ → Type 0
NumbersFit size vs = All (λ v. v < 256 ^ size) vs

pub length-block_of : (size : ℕ) (vs : List ℕ) → length (block_of size vs) ≡ length vs * size
length-block_of size [] = omega arith
length-block_of size (v ∷ vs) = omega (
  arith,
  length-append (to_le size v) (block_of size vs),
  length-to_le size v,
  length-block_of size vs,
)

-- The elements are found in the block that holds them.
pub numbers_of-block_of :
    (size : ℕ) (vs : List ℕ)
    → NumbersFit size vs
    → numbers_of size (length vs) (block_of size vs) ≡ vs
numbers_of-block_of size [] h = refl
numbers_of-block_of size (v ∷ vs) h =
    let e = length-to_le size v in
    let first : take size (to_le size v ++ block_of size vs) ≡ to_le size v =
      rw e at (take-append (to_le size v) (block_of size vs)) in
    let others : drop size (to_le size v ++ block_of size vs) ≡ block_of size vs =
      rw e at (drop-append (to_le size v) (block_of size vs)) in
    rw (first, others, from_le-to_le size v h.0, numbers_of-block_of size vs h.1)

-- The length, then the block.
abbrev pub vector_wire : ℕ → List ℕ → List ℕ
vector_wire size vs = to_le 4 (length vs) ++ block_of size vs

pub write_contiguous-Writes :
    (size : ℕ) (vs : List ℕ) → Writes (write_contiguous size vs) (block_of size vs)
unfolding write_contiguous
write_contiguous-Writes size [] = Writes-nothing
write_contiguous-Writes size (v ∷ vs) = append_bytes-Writes _

pub write_vector-Writes :
    (size : ℕ) (vs : List ℕ)
    → length vs < 2 ^ 31
    → Writes (write_vector size vs) (vector_wire size vs)
unfolding write_vector
write_vector-Writes size vs short = counted-Writes (length vs) _ _ short (
    Writes-then (write_collection_header (length vs)) (write_contiguous size vs)
      (to_le 4 (length vs)) (block_of size vs) (write_collection_header-Writes (length vs))
      (write_contiguous-Writes size vs))

pub read_block-Reads :
    {A : Type 0} {levels : ℕ} (n : ℕ) (d : A) (f : List ℕ → A) (wire : List ℕ)
    → length wire ≡ n
    → Reads levels (read_block n d f) wire (f wire)
unfolding read_block
read_block-Reads {levels = levels} n d f wire e =
    checked-Reads n _ _ wire (omega arith)
      (Reads-map {levels = levels} (take_bytes n) f wire (take_bytes-Reads n wire e))

-- `ReadVector` takes the length and the block of any numbers that fit their size off the front of
-- the unread input and gives them: one copy reads what the loop over the elements would. The reader
-- has no error and limits that allow every int32 length.
pub read_vector-Reads :
    (levels size : ℕ) (vs : List ℕ)
    → NumbersFit size vs
    → length vs < 2 ^ 31
    → (r : Reader) (rest : List ℕ) → Ready levels r
    → Ahead r (vector_wire size vs) rest
    → read_vector size r ≡ returned vs (advanced (length (vector_wire size vs)) r)
unfolding read_vector
read_vector-Reads levels size vs fit short =
    counted-Reads size (length vs) _ (block_of size vs) short
      (omega (arith, length-block_of size vs)) (rest vs fit short)
  where
    rest :
        (vs : List ℕ)
        → NumbersFit size vs
        → length vs < 2 ^ 31
        → Reads levels
            (if is_empty_length (length vs)
              then pure []
              else read_block (length vs * size) [] (numbers_of size (length vs)))
            (block_of size vs)
            vs
    rest [] fit short = Reads-pure []
    rest (v ∷ vs) fit short =
        rw (lt→leb (2 ^ 31) (length (v ∷ vs)) short, ne→==false (length (v ∷ vs)) 0 (omega arith))
          (rw (numbers_of-block_of size (v ∷ vs) fit) at (
            read_block-Reads {levels = levels} (length (v ∷ vs) * size) []
              (numbers_of size (length (v ∷ vs))) (block_of size (v ∷ vs))
              (length-block_of size (v ∷ vs))))

pub number_vector-IsSafe : (size : ℕ) → IsSafe (number_vector_formatter size)
number_vector-IsSafe size old = read_vector-Safe size

-- A vector of numbers is lawful.
unfoldable pub number_vector-Lawful : (size : ℕ) → Lawful (number_vector_formatter size)
unfolding min_encoded_size container_min_size
number_vector-Lawful size = record {
  wire = vector_wire size;
  IsEncodable = λ vs. NumbersFit size vs × (length vs < 2 ^ 31);
  levels = 0;
  writes = λ vs h. write_vector-Writes size vs h.1;
  reads = λ n old vs deep h. read_vector-Reads n size vs h.0 h.1;
  large = λ vs h. omega arith;
}
