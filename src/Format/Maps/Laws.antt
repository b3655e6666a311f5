-- ===== src/Format/Maps/Laws.antt =====
-- include/memorypack/containers.hpp: pairs and maps are safe where their parts are, and a map with
-- distinct keys is read back.
use memory_pack_cpp.Base.{
  ℕ, zero, suc, ◌+◌, ◌*◌, ◌≤◌, ◌<◌, ◌^◌, ◌≡◌, sym, Bool, false, List, [], ◌∷◌, ◌++◌, length, to_le,
  if◌then◌else◌, All, arith, length-append, append_assoc, append-nil, lt→leb, ne→==false,
}
use memory_pack_cpp.Outcome.{returned, pure, ◌>>◌}
use memory_pack_cpp.Reader.{Reader, IsValid}
use memory_pack_cpp.Reader.Safe.{Safe, SafeFrom, Safe-bind, Safe-pure, Safe-if, is_failed-Safe}
use memory_pack_cpp.Reader.Reads.{
  Ready, Reads, Ahead, advanced, Reads-bind, Reads-pure, is_failed-Reads,
}
use memory_pack_cpp.Reader.Headers.Safe.{read_collection_length-Safe}
use memory_pack_cpp.Reader.Headers.Reads.{counted-Reads}
use memory_pack_cpp.Writer.Appends.{Writes, Writes-then, Writes-nothing}
use memory_pack_cpp.Writer.Headers.{write_collection_header}
use memory_pack_cpp.Writer.Headers.Writes.{counted-Writes, write_collection_header-Writes}
use memory_pack_cpp.Format.{Formatter, Lawful, IsSafe, container_min_size}
use memory_pack_cpp.Format.Collections.{is_empty_length}
use memory_pack_cpp.Format.Maps.{
  deserialize_pair, pair_formatter, write_entries, write_map, has_key, emplace, read_entries,
  read_map_by, map_formatter,
}

module _ {K V : Type 0} (F : Formatter K) (G : Formatter V) (safe_key : IsSafe F)
    (safe_value : IsSafe G) where
  pub pair-IsSafe : IsSafe (pair_formatter F G)
  unfolding deserialize_pair
  pair-IsSafe old =
      Safe-bind (safe_key old.0) (λ k. Safe-bind (safe_value old.1) (λ v. Safe-pure (k, v)))

  read_entries-Safe :
      (same : K → K → Bool) (left : ℕ) (entries : List (K × V))
      → Safe (read_entries F G same left entries)
  unfolding read_entries
  read_entries-Safe same zero entries = Safe-pure entries
  read_entries-Safe same (suc left) entries = Safe-bind is_failed-Safe (λ bad.
      Safe-if bad (Safe-pure entries) (
        Safe-bind (safe_key F.init) (λ k.
          Safe-bind (safe_value G.init)
            (λ v. read_entries-Safe same left (emplace F G same entries (k, v))))))

  -- Reading a map of keys and values that are safe to read touches no memory outside the input, keeps
  -- the position in bounds and replaces no error, whatever the input holds.
  pub read_map_by-Safe :
      (same : K → K → Bool) (min_size : ℕ) (r : Reader)
      → IsValid r
      → SafeFrom r (read_map_by F G same min_size r)
  unfolding read_map_by
  read_map_by-Safe same min_size =
      Safe-bind (read_collection_length-Safe min_size)
        (λ len. Safe-if (is_empty_length len) (Safe-pure []) (read_entries-Safe same len []))

module _ {K V : Type 0} (F : Formatter K) (G : Formatter V) (L : Lawful F) (M : Lawful G) where
  abbrev pub EntryEncodable : K × V → Type 0
  EntryEncodable entry = L.IsEncodable entry.0 × M.IsEncodable entry.1

  abbrev pub entries_wire : List (K × V) → List ℕ
  entries_wire [] = []
  entries_wire (entry ∷ entries) = L.wire entry.0 ++ (M.wire entry.1 ++ entries_wire entries)

  -- The number of entries, then the keys, each with its value behind it.
  abbrev pub map_wire : List (K × V) → List ℕ
  map_wire entries = to_le 4 (length entries) ++ entries_wire entries

  write_entries-Writes :
      (entries : List (K × V))
      → All EntryEncodable entries
      → Writes (write_entries F G entries) (entries_wire entries)
  unfolding write_entries
  write_entries-Writes [] h = Writes-nothing
  write_entries-Writes (entry ∷ entries) h =
      Writes-then (F.serialize entry.0) (G.serialize entry.1 >> write_entries F G entries)
        (L.wire entry.0) (M.wire entry.1 ++ entries_wire entries) (L.writes entry.0 h.0.0)
        (Writes-then (G.serialize entry.1) (write_entries F G entries) (M.wire entry.1)
          (entries_wire entries) (M.writes entry.1 h.0.1) (write_entries-Writes entries h.1))

  pub write_map-Writes :
      (entries : List (K × V))
      → All EntryEncodable entries
      → length entries < 2 ^ 31
      → Writes (write_map F G entries) (map_wire entries)
  unfolding write_map
  write_map-Writes entries h short = counted-Writes (length entries) _ _ short (
      Writes-then (write_collection_header (length entries)) (write_entries F G entries)
        (to_le 4 (length entries)) (entries_wire entries)
        (write_collection_header-Writes (length entries)) (write_entries-Writes entries h))

  entries_fit :
      (entries : List (K × V))
      → All EntryEncodable entries
      → length entries * (container_min_size F.kind + container_min_size G.kind)
        ≤ length (entries_wire entries)
  entries_fit [] h = omega arith
  entries_fit (entry ∷ entries) h = omega (
    arith,
    length-append (L.wire entry.0) (M.wire entry.1 ++ entries_wire entries),
    length-append (M.wire entry.1) (entries_wire entries),
    (L.large entry.0 h.0.0).1,
    (M.large entry.1 h.0.1).1,
    entries_fit entries h.1,
  )

  module _ (same : K → K → Bool) where
    -- No key of the entries is the same as one before it, or as one of `front`.
    abbrev pub HasNewKeys : List (K × V) → List (K × V) → Type 0
    HasNewKeys front [] = Unit {0}
    HasNewKeys front (entry ∷ entries) =
        (has_key F G same entry.0 front ≡ false) × HasNewKeys (front ++ (entry ∷ [])) entries

    emplace-new :
        (front : List (K × V)) (entry : K × V)
        → has_key F G same entry.0 front ≡ false
        → emplace F G same front entry ≡ front ++ (entry ∷ [])
    unfolding emplace
    emplace-new front entry h = rw h

    read_entries-Reads :
        (n : ℕ) (front entries : List (K × V))
        → L.levels ≤ n
        → M.levels ≤ n
        → All EntryEncodable entries
        → HasNewKeys front entries
        → Reads n
            (read_entries F G same (length entries) front)
            (entries_wire entries)
            (front ++ entries)
    unfolding read_entries
    read_entries-Reads n front [] deep deep' h new = rw (append-nil front) (Reads-pure front)
    read_entries-Reads n front (entry ∷ entries) deep deep' h new =
        let next : Reads n (read_entries F G same (length entries) (emplace F G same front entry))
            (entries_wire entries) (front ++ (entry ∷ entries)) =
          rw (emplace-new front entry new.0, sym (append_assoc front (entry ∷ []) entries))
            (read_entries-Reads n (front ++ (entry ∷ [])) entries deep deep' h.1 new.1) in
        is_failed-Reads _ (entries_wire (entry ∷ entries)) (
          Reads-bind (F.deserialize F.init) _ (L.wire entry.0)
            (M.wire entry.1 ++ entries_wire entries) (L.reads n F.init entry.0 deep h.0.0)
            (Reads-bind (G.deserialize G.init) _ (M.wire entry.1) (entries_wire entries)
              (M.reads n G.init entry.1 deep' h.0.1) next))

    -- The reader of a map takes the encoding of its entries off the front of the unread input and
    -- gives them in their order, where no two keys are the same. The reader has no error, limits
    -- that allow every int32 length, and levels enough left.
    pub deserialize_map-Reads :
        (n : ℕ) (old entries : List (K × V))
        → L.levels ≤ n
        → M.levels ≤ n
        → All EntryEncodable entries
        → HasNewKeys [] entries
        → length entries < 2 ^ 31
        → (r : Reader) (rest : List ℕ) → Ready n r
        → Ahead r (map_wire entries) rest
        → (map_formatter F G same).deserialize old r
          ≡ returned entries (advanced (length (map_wire entries)) r)
    unfolding read_map_by
    deserialize_map-Reads n old entries deep deep' h new short =
        counted-Reads (container_min_size F.kind + container_min_size G.kind) (length entries) _
          (entries_wire entries) short (entries_fit entries h) (rest entries h new short)
      where
        rest :
            (entries : List (K × V))
            → All EntryEncodable entries
            → HasNewKeys [] entries
            → length entries < 2 ^ 31
            → Reads n
                (if is_empty_length (length entries)
                  then pure []
                  else read_entries F G same (length entries) [])
                (entries_wire entries)
                entries
        rest [] h new short = Reads-pure []
        rest (entry ∷ entries) h new short =
            rw
              (
                lt→leb (2 ^ 31) (length (entry ∷ entries)) short,
                ne→==false (length (entry ∷ entries)) 0 (omega arith),
              )
              (read_entries-Reads n [] (entry ∷ entries) deep deep' h new)
