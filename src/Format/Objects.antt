-- ===== src/Format/Objects.antt =====
-- include/memorypack/core.hpp, MEMORYPACK_DEFINE: the formatter that the macro generates from a
-- member list.
pub mod Laws
pub mod Overflows
use memory_pack_cpp.Base.{
  ℕ, zero, suc, ◌+◌, Bool, true, false, List, [], ◌∷◌, length, ltb, if◌then◌else◌, Option, none,
  some,
}
use memory_pack_cpp.Outcome.{pure, ◌>>=◌, ◌>>◌}
use memory_pack_cpp.Reader.{Read, enter_object, leave_object}
use memory_pack_cpp.Reader.Headers.{read_object_header}
use memory_pack_cpp.Writer.{Write}
use memory_pack_cpp.Writer.Headers.{write_object_header, write_null_object_header}
use memory_pack_cpp.Format.{Formatter, object}

-- One name of the member list: its type's formatter, and reading and assigning `v.name`.
pub record Member (T : Type 0) : Type 1 where
  pub Field : Type 0
  pub format : Formatter Field
  pub get : T → Field
  pub set : Field → T → T

-- A member by its formatter.
abbrev pub member : {T A : Type 0} → Formatter A → (T → A) → (A → T → T) → Member T
member {A = A} F get set = record { Field = A; format = F; get = get; set = set }

module _ {T : Type 0} where
  -- MEMORYPACK_DETAIL_WRITE_MEMBER for each name.
  unfoldable pub write_members : List (Member T) → T → Write
  write_members [] v = pure tt
  write_members (m ∷ ms) v = do m.format.serialize (m.get v); write_members ms v

  -- MEMORYPACK_DETAIL_READ_MEMBER for each name: `if (count > index++) r.Read(v.name);`
  unfoldable pub read_members : ℕ → ℕ → List (Member T) → T → Read T
  read_members count index [] v = pure v
  read_members count index (m ∷ ms) v =
      let skipped = read_members count (suc index) ms v in
      if ltb index count
      then (do x ← m.format.deserialize (m.get v); read_members count (suc index) ms (m.set x v))
      else skipped

  -- EnterObject and LeaveObject around the reading of the members.
  unfoldable pub read_nested : Read T → T → Read T
  read_nested m old = do
    entered ← enter_object
    if entered then (do v ← m; leave_object; pure v) else pure old

  -- IMemoryPackable<Type>::Deserialize(MemoryPackReader& r, Type& v)
  unfoldable pub deserialize_object : T → List (Member T) → T → Read T
  unfolding read_nested
  deserialize_object init members old = do
    header ← read_object_header
    if header.is_null then pure init else read_nested (read_members header.count 0 members old) old

  -- IMemoryPackable<Type>::Serialize(MemoryPackWriter& w, const Type* v); `none` is the null pointer.
  unfoldable pub serialize_object : List (Member T) → Option T → Write
  serialize_object members none = write_null_object_header
  serialize_object members (some v) = do
    write_object_header (length members)
    write_members members v

  -- MEMORYPACK_DEFINE(Type, members...), with `init` for Type{}.
  abbrev pub object_formatter : T → List (Member T) → Formatter T
  object_formatter init members = record {
    kind = object;
    init = init;
    serialize = λ v. serialize_object members (some v);
    deserialize = deserialize_object init members;
  }

  -- MEMORYPACK_DEFINE_EMPTY(Type): Serialize, where `none` is the null pointer, and Deserialize.
  unfoldable pub serialize_empty : Option T → Write
  serialize_empty none = write_null_object_header
  serialize_empty (some v) = write_object_header 0

  unfoldable pub deserialize_empty : T → T → Read T
  deserialize_empty init old = do
    header ← read_object_header
    if header.is_null then pure init else pure old

  abbrev pub empty_formatter : T → Formatter T
  empty_formatter init = record {
    kind = object;
    init = init;
    serialize = λ v. serialize_empty (some v);
    deserialize = deserialize_empty init;
  }
