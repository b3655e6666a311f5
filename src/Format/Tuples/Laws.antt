-- ===== src/Format/Tuples/Laws.antt =====
-- include/memorypack/core.hpp: tuples are safe and lawful where their elements are.
use memory_pack_cpp.Base.{ℕ, ◌+◌, ◌≤◌, ◌≡◌, List, [], ◌∷◌, length, take, arith, take-length}
use memory_pack_cpp.Outcome.{returned}
use memory_pack_cpp.Reader.{Reader}
use memory_pack_cpp.Reader.Safe.{Safe-bind, Safe-if, Safe-pure}
use memory_pack_cpp.Reader.Reads.{Ready, Reads, Ahead, advanced, Reads-bind}
use memory_pack_cpp.Reader.Headers.{read_object_header}
use memory_pack_cpp.Reader.Headers.Safe.{read_object_header-Safe}
use memory_pack_cpp.Reader.Headers.Reads.{read_object_header-Reads}
use memory_pack_cpp.Format.{Lawful, IsSafe, min_encoded_size, container_min_size}
use memory_pack_cpp.Format.Objects.{Member, serialize_object}
use memory_pack_cpp.Format.Objects.Laws.{
  AllSafe, AllLawful, read_members-Safe, read_members-Reads, members_wire, members_levels,
  MembersEncodable, take_lawful, assign, object_wire, full_wire, serialize_object-Writes,
  members_wire-all,
}
use memory_pack_cpp.Format.Tuples.{write_tuple, read_tuple_elements, read_tuple, tuple_formatter}

module _ {T : Type 0} (init : T) (elements : List (Member T)) where
  pub tuple-IsSafe : AllSafe elements → IsSafe (tuple_formatter init elements)
  unfolding read_tuple read_tuple_elements
  tuple-IsSafe safe old = Safe-bind read_object_header-Safe (λ header.
      Safe-if header.is_null (Safe-pure init) (read_members-Safe header.count 0 elements init safe))

  -- A tuple from a sender that has only the first `k` of the elements, at most 249, is read up to its
  -- end: those elements get the sender's values, and the others those of T{}. The reader has no error,
  -- limits that allow every int32 length, and levels enough left; the tuple itself takes none.
  pub read_tuple-Reads :
      (n k : ℕ) (L : AllLawful elements) (t : T)
      → members_levels elements L ≤ n
      → k ≤ length elements
      → k ≤ 249
      → MembersEncodable elements L t
      → (r : Reader) (rest : List ℕ) → Ready n r
      → Ahead r (object_wire k elements L t) rest
      → read_tuple init elements r
        ≡ returned
            (assign (take k elements) t init)
            (advanced (length (object_wire k elements L t)) r)
  unfolding read_tuple read_tuple_elements
  read_tuple-Reads n k L t deep short small h =
      let e : 0 + k ≡ k = omega arith in
      Reads-bind read_object_header _ (k ∷ [])
        (members_wire (take k elements) (take_lawful k elements L) t)
        (read_object_header-Reads k small)
        (rw e at (read_members-Reads n k 0 elements L t init deep short h))

  unfoldable pub tuple-Lawful :
      (L : AllLawful elements)
      → length elements ≤ 249
      → ((t old : T) → assign elements t old ≡ t)
      → Lawful (tuple_formatter init elements)
  unfolding min_encoded_size container_min_size write_tuple serialize_object
  tuple-Lawful L small rebuild = record {
    wire = full_wire elements L;
    IsEncodable = MembersEncodable elements L;
    levels = members_levels elements L;
    writes = λ t h. serialize_object-Writes elements L t small h;
    reads = λ n old t deep h.
        let whole : Reads n (read_tuple init elements) (object_wire (length elements) elements L t)
            (assign (take (length elements) elements) t init) =
          read_tuple-Reads n (length elements) L t deep (omega arith) small h in
        rw (take-length elements, members_wire-all elements L t, rebuild t init) at whole;
    large = λ t h. omega arith;
  }
