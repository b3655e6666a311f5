-- ===== src/VersionTolerant.antt =====
-- include/memorypack/core.hpp, VersionTolerantReader and VersionTolerantWriter: objects whose
-- members stand behind their byte lengths.
pub mod Truncated
pub mod Defined
pub mod Grown
use memory_pack_cpp.Base.{
  ℕ, zero, suc, ◌+◌, ◌-◌, ◌≤◌, ◌<◌, ◌^◌, ◌%◌, ◌≡◌, Bool, true, false, not, List, [], ◌∷◌, ◌++◌,
  length, get_elem?, ltb, leb, ◌||◌, if◌then◌else◌, Option, none, some,
}
use memory_pack_cpp.Outcome.{Outcome, returned, thrown, fault, pure, ◌>>=◌, ◌>>◌}
use memory_pack_cpp.Reader.{Read, is_failed, get_position, seek}
use memory_pack_cpp.Reader.Headers.{
  read_object_header, read_varint_length, null_object, max_member_count,
}
use memory_pack_cpp.Writer.{Writer, Write, new_writer, writer_size, written, append_bytes}
use memory_pack_cpp.Writer.Headers.{write_object_header, write_varint_length}
use memory_pack_cpp.Format.{Formatter}

-- class VersionTolerantReader, but for the reader that it refers to.
pub record VersionTolerantReader : Type 0 where
  pub lengths : List ℕ
  pub count : ℕ
  pub index : ℕ
  pub next : ℕ
  pub is_null : Bool

-- for (uint8_t i = 0; i < count_ && !in.Failed(); ++i) lengths_.push_back(in.ReadVarIntLength());
unfoldable pub read_lengths : ℕ → Read (List ℕ)
read_lengths zero = pure []
read_lengths (suc left) = do
  bad ← is_failed
  if bad
      then pure []
      else (do len ← read_varint_length; lens ← read_lengths left; pure (len ∷ lens))

-- explicit VersionTolerantReader(MemoryPackReader& in)
unfoldable pub open_object : Read VersionTolerantReader
unfolding read_lengths
open_object = do
  header ← read_object_header
  if header.is_null
      then pure (record { lengths = []; count = 0; index = 0; next = 0; is_null = true })
      else (do
        lengths ← read_lengths header.count
        next ← get_position
        pure (record {
          lengths = lengths;
          count = header.count;
          index = 0;
          next = next;
          is_null = false;
        }))

-- lengths_[index_], which is not checked.
unfoldable pub member_length : VersionTolerantReader → Read ℕ
member_length vt r = elim (get_elem? vt.lengths vt.index) [
  | none ↦ fault
  | some len ↦ returned len r
]

abbrev pub has_no_more : VersionTolerantReader → Bool
has_no_more vt = vt.is_null || leb vt.count vt.index

-- What ReadMember gives: the object reader, what `out` holds, and the result.
pub record MemberRead (A : Type 0) : Type 0 where
  pub object : VersionTolerantReader
  pub out : A
  pub found : Bool

-- bool ReadMember(T& out)
unfoldable pub read_member :
    {A : Type 0} → Formatter A → VersionTolerantReader → A → Read (MemberRead A)
unfolding member_length
read_member F vt out =
    if has_no_more vt then pure (record { object = vt; out = out; found = false }) else (do
      len ← member_length vt
      seek vt.next
      bad ← is_failed
      if bad
          then pure
              (record { object = record vt { index = suc vt.index }; out = out; found = false })
          else (do
            v ← F.deserialize out
            seek (vt.next + len)
            pure (record {
              object = record vt { index = suc vt.index; next = vt.next + len };
              out = v;
              found = true;
            })))

-- bool SkipMember()
unfoldable pub skip_member : VersionTolerantReader → Read VersionTolerantReader
unfolding member_length
skip_member vt = if has_no_more vt then pure vt else (do
  len ← member_length vt
  seek (vt.next + len)
  pure (record vt { index = suc vt.index; next = vt.next + len }))

-- while (index_ < count_) SkipMember(); each round skips one of the members that are left.
unfoldable pub skip_all : ℕ → VersionTolerantReader → Read VersionTolerantReader
unfolding skip_member
skip_all zero vt = pure vt
skip_all (suc left) vt = do vt' ← skip_member vt; skip_all left vt'

-- void Finish()
unfoldable pub finish : VersionTolerantReader → Read (Unit {0})
unfolding skip_all
finish vt = do
  vt' ← skip_all (vt.count - vt.index) vt
  if vt'.is_null then pure tt else seek vt'.next

-- class VersionTolerantWriter, but for the writer that it refers to. `body_` is a writer of its own.
pub record VersionTolerantWriter : Type 0 where
  pub body : Writer
  pub lengths : List ℕ
  pub finished : Bool

abbrev pub new_object : Bool → VersionTolerantWriter
new_object exceptions = record { body = new_writer exceptions; lengths = []; finished = false }

-- void WriteMember(const T& value)
unfoldable pub write_member :
    {A : Type 0}
    → Formatter A
    → A
    → VersionTolerantWriter
    → Outcome VersionTolerantWriter (Unit {0})
write_member F v vt = elim (F.serialize v vt.body) [
  | returned _ body ↦
      let len = (writer_size body - writer_size vt.body) % 2 ^ 32 in
      returned tt (record vt { body = body; lengths = vt.lengths ++ (len ∷ []) })
  | thrown e body ↦ thrown e (record vt { body = body })
  | fault ↦ fault
]

unfoldable pub write_lengths : List ℕ → Write
write_lengths [] = pure tt
write_lengths (len ∷ lens) = do write_varint_length len; write_lengths lens

-- What Finish emits on the target writer.
unfoldable pub emit_object : VersionTolerantWriter → Write
unfolding write_lengths
emit_object vt =
    if ltb max_member_count (length vt.lengths) then write_object_header null_object else (do
      write_object_header (length vt.lengths)
      write_lengths vt.lengths
      append_bytes (written vt.body))

abbrev finished_with :
    VersionTolerantWriter
    → Outcome Writer (Unit {0})
    → Outcome (VersionTolerantWriter × Writer) (Unit {0})
finished_with vt (returned _ w) = returned tt (record vt { finished = true }, w)
finished_with vt (thrown e w) = thrown e (record vt { finished = true }, w)
finished_with vt fault = fault

-- void Finish() of the writer, with its target writer; a second call does nothing.
unfoldable pub finish_writer :
    VersionTolerantWriter → Writer → Outcome (VersionTolerantWriter × Writer) (Unit {0})
unfolding emit_object
finish_writer vt w =
    if vt.finished then returned tt (vt, w) else finished_with vt (emit_object vt w)
