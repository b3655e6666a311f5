-- ===== src/Format/Objects/Laws.antt =====
-- include/memorypack/core.hpp, MEMORYPACK_DEFINE: objects are safe and lawful where their members
-- are, and tolerate members that the sender did not write.
use memory_pack_cpp.Base.{
  ℕ, zero, suc, ◌+◌, ◌-◌, ◌%◌, ◌≤◌, ◌<◌, ◌^◌, ◌≡◌, refl, ap, false, List, [], ◌∷◌, ◌++◌, length,
  take, All, ltb, some, arith, le→ltb, lt→ltb, take-length,
}
use Prim.Native.Nat.{max}
use memory_pack_cpp.Outcome.{returned, pure, ◌>>=◌}
use memory_pack_cpp.Reader.{IsValid, Reader, Read, enter_object, leave_object}
use memory_pack_cpp.Reader.Safe.{
  SafeFrom, Safe, Safe-bind, Safe-pure, Safe-if, enter_object-Safe, leave_object-Safe,
}
use memory_pack_cpp.Reader.Reads.{Ready, Reads, Ahead, advanced, Reads-bind, Reads-pure}
use memory_pack_cpp.Reader.Headers.{read_object_header}
use memory_pack_cpp.Reader.Headers.Safe.{read_object_header-Safe}
use memory_pack_cpp.Reader.Headers.Reads.{read_object_header-Reads, read_null_header-Reads}
use memory_pack_cpp.Writer.Appends.{Writes, Writes-then, Writes-nothing}
use memory_pack_cpp.Writer.Headers.{write_object_header}
use memory_pack_cpp.Writer.Headers.Writes.{write_object_header-Writes}
use memory_pack_cpp.Format.{Lawful, IsSafe, min_encoded_size, container_min_size}
use memory_pack_cpp.Format.Objects.{
  Member, write_members, read_members, read_nested, deserialize_object, serialize_object,
  object_formatter, deserialize_empty, empty_formatter,
}

abbrev pub AllSafe : {T : Type 0} → List (Member T) → Type 0
AllSafe ms = All (λ m. IsSafe m.format) ms

abbrev pub AllLawful : {T : Type 0} → List (Member T) → Type 1
AllLawful [] = Unit {1}
AllLawful (m ∷ ms) = Lawful m.format × AllLawful ms

module _ {T : Type 0} where
  pub read_members-Safe :
      (count index : ℕ) (ms : List (Member T)) (v : T)
      → AllSafe ms
      → Safe (read_members count index ms v)
  unfolding read_members
  read_members-Safe count index [] v h = Safe-pure v
  read_members-Safe count index (m ∷ ms) v h =
      Safe-if (ltb index count)
        (Safe-bind (h.0 (m.get v)) (λ x. read_members-Safe count (suc index) ms (m.set x v) h.1))
        (read_members-Safe count (suc index) ms v h.1)

  read_nested-Safe : (m : Read T) (old : T) → Safe m → Safe (read_nested m old)
  unfolding read_nested
  read_nested-Safe m old h = Safe-bind enter_object-Safe (λ entered.
      Safe-if entered (Safe-bind h (λ v. Safe-bind leave_object-Safe (λ _. Safe-pure v)))
        (Safe-pure old))

  -- Reading an object of members that are safe to read touches no memory outside the input, keeps the
  -- position in bounds and replaces no error, whatever the input holds.
  pub object-IsSafe :
      (init : T) (ms : List (Member T))
      → AllSafe ms
      → (old : T) (r : Reader) → IsValid r
      → SafeFrom r (deserialize_object init ms old r)
  unfolding deserialize_object
  object-IsSafe init ms h old = Safe-bind read_object_header-Safe (λ header.
      Safe-if header.is_null (Safe-pure init) (
        read_nested-Safe (read_members header.count 0 ms old) old
          (read_members-Safe header.count 0 ms old h)))

  pub empty-IsSafe : (init : T) → IsSafe (empty_formatter init)
  unfolding deserialize_empty
  empty-IsSafe init old =
      Safe-bind read_object_header-Safe
        (λ header. Safe-if header.is_null (Safe-pure init) (Safe-pure old))

  -- A nested read uses one of the levels that are left, and gives it back.
  nested-Reads :
      (n : ℕ) (m : Read T) (old : T) (wire : List ℕ) {v : T}
      → Reads n m wire v
      → Reads (suc n) (read_nested m old) wire v
  unfolding read_nested enter_object leave_object
  nested-Reads n m old wire {v} h r rest ready ahead =
      let e : (r.depth + 1) % 2 ^ 32 ≡ r.depth + 1 =
        omega (arith, ready.levels_left, ready.depth_fits) in
      let inner : Reader = record r { depth = r.depth + 1 } in
      let ready' : Ready n inner = record {
        valid = record { in_bounds = ready.valid.in_bounds; fits = ready.valid.fits };
        clean = ready.clean;
        collections = ready.collections;
        strings = ready.strings;
        levels_left = omega (arith, ready.levels_left);
        depth_fits = ready.depth_fits;
      } in
      let shallow : ltb r.options.max_depth (r.depth + 1) ≡ false =
        le→ltb _ _ (omega (arith, ready.levels_left)) in
      let back : r.depth + 1 - 1 ≡ r.depth = omega arith in
      rw (e, shallow, h inner rest ready' ahead)
        (λ i. returned v (record r { depth = back i; pos = r.pos + length wire }))

  -- The encodings of the members, in order.
  abbrev pub members_wire : (ms : List (Member T)) → AllLawful ms → T → List ℕ
  members_wire [] L v = []
  members_wire (m ∷ ms) L v = L.0.wire (m.get v) ++ members_wire ms L.1 v

  abbrev pub MembersEncodable : (ms : List (Member T)) → AllLawful ms → T → Type 0
  MembersEncodable [] L v = Unit {0}
  MembersEncodable (m ∷ ms) L v = L.0.IsEncodable (m.get v) × MembersEncodable ms L.1 v

  abbrev pub members_levels : (ms : List (Member T)) → AllLawful ms → ℕ
  members_levels [] L = 0
  members_levels (m ∷ ms) L = max L.0.levels (members_levels ms L.1)

  -- The first `k` members, with their laws.
  abbrev pub take_lawful : (k : ℕ) (ms : List (Member T)) → AllLawful ms → AllLawful (take k ms)
  take_lawful zero ms L = tt
  take_lawful (suc k) [] L = tt
  take_lawful (suc k) (m ∷ ms) L = (L.0, take_lawful k ms L.1)

  -- `old` with the members `ms` assigned from `v`.
  abbrev pub assign : List (Member T) → T → T → T
  assign [] v old = old
  assign (m ∷ ms) v old = assign ms v (m.set (m.get v) old)

  write_members-Writes :
      (ms : List (Member T)) (L : AllLawful ms) (v : T)
      → MembersEncodable ms L v
      → Writes (write_members ms v) (members_wire ms L v)
  unfolding write_members
  write_members-Writes [] L v h = Writes-nothing
  write_members-Writes (m ∷ ms) L v h =
      Writes-then (m.format.serialize (m.get v)) (write_members ms v) (L.0.wire (m.get v))
        (members_wire ms L.1 v) (L.0.writes (m.get v) h.0) (write_members-Writes ms L.1 v h.1)

  read_members_stop :
      (count index : ℕ) (ms : List (Member T)) (old : T)
      → count ≤ index
      → read_members count index ms old ≡ pure old
  unfolding read_members
  read_members_stop count index [] old h = refl
  read_members_stop count index (m ∷ ms) old h =
      rw (le→ltb index count h) (read_members_stop count (suc index) ms old (omega arith))

  read_members_next :
      (count index : ℕ) (m : Member T) (ms : List (Member T)) (old : T)
      → index < count
      → read_members count index (m ∷ ms) old ≡ (
          m.format.deserialize (m.get old) >>= λ x. read_members count (suc index) ms (m.set x old))
  unfolding read_members
  read_members_next count index m ms old h = rw (lt→ltb index count h)

  -- Of `k` members that were written the reader takes all, and leaves the others as they were.
  pub read_members-Reads :
      (n k index : ℕ) (ms : List (Member T)) (L : AllLawful ms) (v old : T)
      → members_levels ms L ≤ n
      → k ≤ length ms
      → MembersEncodable ms L v
      → Reads n
          (read_members (index + k) index ms old)
          (members_wire (take k ms) (take_lawful k ms L) v)
          (assign (take k ms) v old)
  read_members-Reads n zero index ms L v old deep short h =
      rw (read_members_stop (index + 0) index ms old (omega arith)) (Reads-pure old)
  read_members-Reads n (suc k) index [] L v old deep short h = absurd (omega arith)
  read_members-Reads n (suc k) index (m ∷ ms) L v old deep short h =
      let e : index + suc k ≡ suc index + k = omega arith in
      rw (e, read_members_next (suc index + k) index m ms old (omega arith))
        (Reads-bind (m.format.deserialize (m.get old)) _ (L.0.wire (m.get v))
          (members_wire (take k ms) (take_lawful k ms L.1) v)
          (L.0.reads n (m.get old) (m.get v) (omega arith) h.0)
          (read_members-Reads n k (suc index) ms L.1 v (m.set (m.get v) old) (omega arith)
            (omega arith) h.1))

  -- The encoding of an object by a sender that knows the first `k` of the members.
  abbrev pub object_wire : (k : ℕ) (ms : List (Member T)) → AllLawful ms → T → List ℕ
  object_wire k ms L v = k ∷ members_wire (take k ms) (take_lawful k ms L) v

  -- An object from a sender that knows only the first `k` of the members, at most 249, is read up to
  -- its end: those members get the sender's values, and the others stay as they were before the
  -- call. The reader has no error, limits that allow every int32 length, and levels enough left.
  pub deserialize_object-Reads :
      (n k : ℕ) (init : T) (ms : List (Member T)) (L : AllLawful ms) (v old : T)
      → members_levels ms L < n
      → k ≤ length ms
      → k ≤ 249
      → MembersEncodable ms L v
      → (r : Reader) (rest : List ℕ) → Ready n r
      → Ahead r (object_wire k ms L v) rest
      → deserialize_object init ms old r
        ≡ returned (assign (take k ms) v old) (advanced (length (object_wire k ms L v)) r)
  unfolding deserialize_object
  deserialize_object-Reads zero k init ms L v old deep short small h = absurd (omega arith)
  deserialize_object-Reads (suc n) k init ms L v old deep short small h =
      let members = members_wire (take k ms) (take_lawful k ms L) v in
      let e : 0 + k ≡ k = omega arith in
      Reads-bind read_object_header _ (k ∷ []) members (read_object_header-Reads k small) (
        nested-Reads n (read_members k 0 ms old) old members
          (rw e at (read_members-Reads n k 0 ms L v old (omega arith) short h)))

  -- A null object resets the value to Type{}.
  pub deserialize_object-null :
      (n : ℕ) (init : T) (ms : List (Member T)) (old : T)
      → Reads n (deserialize_object init ms old) (255 ∷ []) init
  unfolding deserialize_object
  deserialize_object-null n init ms old =
      Reads-bind read_object_header _ (255 ∷ []) [] read_null_header-Reads (Reads-pure init)

  abbrev pub full_wire : (ms : List (Member T)) → AllLawful ms → T → List ℕ
  full_wire ms L v = length ms ∷ members_wire ms L v

  pub serialize_object-Writes :
      (ms : List (Member T)) (L : AllLawful ms) (v : T)
      → length ms ≤ 249
      → MembersEncodable ms L v
      → Writes (serialize_object ms (some v)) (full_wire ms L v)
  unfolding serialize_object
  serialize_object-Writes ms L v small h =
      Writes-then (write_object_header (length ms)) (write_members ms v) (length ms ∷ [])
        (members_wire ms L v) (write_object_header-Writes (length ms) small)
        (write_members-Writes ms L v h)

  pub members_wire-all :
      (ms : List (Member T)) (L : AllLawful ms) (v : T)
      → members_wire (take (length ms) ms) (take_lawful (length ms) ms L) v ≡ members_wire ms L v
  members_wire-all [] L v = refl
  members_wire-all (m ∷ ms) L v =
      ap (λ (ws : List ℕ). L.0.wire (m.get v) ++ ws) (members_wire-all ms L.1 v)

  -- An object of lawful members is lawful, where the member list rebuilds a value: assigning all
  -- members of `v` to any value gives `v`.
  unfoldable pub object-Lawful :
      (init : T) (ms : List (Member T)) (L : AllLawful ms)
      → length ms ≤ 249
      → ((v old : T) → assign ms v old ≡ v)
      → Lawful (object_formatter init ms)
  unfolding min_encoded_size container_min_size
  object-Lawful init ms L small rebuild = record {
    wire = full_wire ms L;
    IsEncodable = MembersEncodable ms L;
    levels = suc (members_levels ms L);
    writes = λ v h. serialize_object-Writes ms L v small h;
    reads = λ n old v deep h.
        let whole : Reads n (deserialize_object init ms old) (object_wire (length ms) ms L v)
            (assign (take (length ms) ms) v old) =
          deserialize_object-Reads n (length ms) init ms L v old deep (omega arith) small h in
        rw (take-length ms, members_wire-all ms L v, rebuild v old) at whole;
    large = λ v h. omega arith;
  }
