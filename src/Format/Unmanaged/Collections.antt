-- ===== src/Format/Unmanaged/Collections.antt =====
-- include/memorypack/core.hpp, WriteUnmanagedCollection and ReadUnmanagedCollection: a collection of
-- trivially copyable structs as one block.
use memory_pack_cpp.Base.{
  ℕ, zero, suc, ◌*◌, ◌<◌, ◌^◌, ◌≡◌, refl, List, [], ◌∷◌, ◌++◌, length, take, drop, All, to_le,
  if◌then◌else◌, arith, length-append, take-append, drop-append, ne→==false, lt→leb,
}
use memory_pack_cpp.Outcome.{returned, pure, ◌>>=◌, ◌>>◌}
use memory_pack_cpp.Reader.{Reader, Read}
use memory_pack_cpp.Reader.Safe.{Safe, Safe-bind, Safe-if, Safe-pure}
use memory_pack_cpp.Reader.Reads.{Ready, Reads, Ahead, advanced, Reads-pure}
use memory_pack_cpp.Reader.Headers.{read_collection_length}
use memory_pack_cpp.Reader.Headers.Safe.{read_collection_length-Safe}
use memory_pack_cpp.Reader.Headers.Reads.{counted-Reads}
use memory_pack_cpp.Writer.{Write, append_bytes}
use memory_pack_cpp.Writer.Appends.{Writes, Writes-then, Writes-nothing, append_bytes-Writes}
use memory_pack_cpp.Writer.Headers.{write_collection_header, to_int32_length, if_length}
use memory_pack_cpp.Writer.Headers.Writes.{counted-Writes, write_collection_header-Writes}
use memory_pack_cpp.Format.Collections.{is_empty_length}
use memory_pack_cpp.Format.Vectors.{read_block}
use memory_pack_cpp.Format.Vectors.Laws.{read_block-Safe, read_block-Reads}

-- The memory of the structs.
abbrev pub joined_structs : List (List ℕ) → List ℕ
joined_structs [] = []
joined_structs (v ∷ vs) = v ++ joined_structs vs

-- The structs that `count * size` bytes of memory hold.
abbrev pub parted : ℕ → ℕ → List ℕ → List (List ℕ)
parted size zero bs = []
parted size (suc count) bs = take size bs ∷ parted size count (drop size bs)

-- if (!items.empty()) AppendBytes(...);
unfoldable pub append_items : List (List ℕ) → Write
append_items [] = pure tt
append_items (v ∷ vs) = append_bytes (joined_structs (v ∷ vs))

-- void WriteUnmanagedCollection(std::span<const T> items)
unfoldable pub write_unmanaged_collection : List (List ℕ) → Write
unfolding append_items
write_unmanaged_collection items = do
  n ← to_int32_length (length items)
  if_length n λ count. do write_collection_header count; append_items items

-- void ReadUnmanagedCollection(std::vector<T>& out), for a T of `size` bytes.
unfoldable pub read_unmanaged_collection : ℕ → Read (List (List ℕ))
read_unmanaged_collection size = do
  len ← read_collection_length size
  if is_empty_length len then pure [] else read_block (len * size) [] (parted size len)

pub read_unmanaged_collection-Safe : (size : ℕ) → Safe (read_unmanaged_collection size)
unfolding read_unmanaged_collection
read_unmanaged_collection-Safe size = Safe-bind (read_collection_length-Safe size) λ len.
    Safe-if (is_empty_length len) (Safe-pure []) (read_block-Safe (len * size) [] (parted size len))

-- Structs of `size` bytes.
abbrev pub AllSized : ℕ → List (List ℕ) → Type 0
AllSized size vs = All (λ v. length v ≡ size) vs

length-joined_structs :
    (size : ℕ) (vs : List (List ℕ))
    → AllSized size vs
    → length (joined_structs vs) ≡ length vs * size
length-joined_structs size [] h = omega arith
length-joined_structs size (v ∷ vs) h =
    omega (arith, length-append v (joined_structs vs), h.0, length-joined_structs size vs h.1)

parted-joined_structs :
    (size : ℕ) (vs : List (List ℕ))
    → AllSized size vs
    → parted size (length vs) (joined_structs vs) ≡ vs
parted-joined_structs size [] h = refl
parted-joined_structs size (v ∷ vs) h =
    let first : take size (v ++ joined_structs vs) ≡ v =
      rw h.0 at (take-append v (joined_structs vs)) in
    let others : drop size (v ++ joined_structs vs) ≡ joined_structs vs =
      rw h.0 at (drop-append v (joined_structs vs)) in
    rw (first, others, parted-joined_structs size vs h.1) refl

abbrev pub unmanaged_collection_wire : List (List ℕ) → List ℕ
unmanaged_collection_wire vs = to_le 4 (length vs) ++ joined_structs vs

append_items-Writes : (vs : List (List ℕ)) → Writes (append_items vs) (joined_structs vs)
unfolding append_items
append_items-Writes [] = Writes-nothing
append_items-Writes (v ∷ vs) = append_bytes-Writes _

pub write_unmanaged_collection-Writes :
    (vs : List (List ℕ))
    → length vs < 2 ^ 31
    → Writes (write_unmanaged_collection vs) (unmanaged_collection_wire vs)
unfolding write_unmanaged_collection
write_unmanaged_collection-Writes vs short = counted-Writes (length vs) _ _ short (
    Writes-then (write_collection_header (length vs)) (append_items vs) (to_le 4 (length vs))
      (joined_structs vs) (write_collection_header-Writes (length vs)) (append_items-Writes vs))

-- A collection of structs that was written is read up to its end and given back, struct by struct. The
-- structs have the size of the type; the reader has no error and limits that allow every int32 length.
pub read_unmanaged_collection-Reads :
    (levels size : ℕ) (vs : List (List ℕ))
    → AllSized size vs
    → length vs < 2 ^ 31
    → (r : Reader) (rest : List ℕ) → Ready levels r
    → Ahead r (unmanaged_collection_wire vs) rest
    → read_unmanaged_collection size r
      ≡ returned vs (advanced (length (unmanaged_collection_wire vs)) r)
unfolding read_unmanaged_collection
read_unmanaged_collection-Reads levels size vs sized short =
    counted-Reads size (length vs) _ (joined_structs vs) short
      (omega (arith, length-joined_structs size vs sized)) (rest vs sized short)
  where
    rest :
        (vs : List (List ℕ))
        → AllSized size vs
        → length vs < 2 ^ 31
        → Reads levels
            (if is_empty_length (length vs)
              then pure []
              else read_block (length vs * size) [] (parted size (length vs)))
            (joined_structs vs)
            vs
    rest [] sized short = Reads-pure []
    rest (v ∷ vs) sized short =
        rw (lt→leb (2 ^ 31) (length (v ∷ vs)) short, ne→==false (length (v ∷ vs)) 0 (omega arith))
          (rw (parted-joined_structs size (v ∷ vs) sized) at (
            read_block-Reads {levels = levels} (length (v ∷ vs) * size) []
              (parted size (length (v ∷ vs))) (joined_structs (v ∷ vs))
              (length-joined_structs size (v ∷ vs) sized)))
