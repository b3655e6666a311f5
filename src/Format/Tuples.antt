-- ===== src/Format/Tuples.antt =====
-- include/memorypack/core.hpp, WriteTuple and ReadTuple; include/memorypack/containers.hpp, the formatter
-- of std::tuple. A tuple is a type `T` with the list of its elements as members, std::get<I>.
pub mod Laws
use memory_pack_cpp.Base.{ℕ, List, length, if◌then◌else◌}
use memory_pack_cpp.Outcome.{pure, ◌>>=◌, ◌>>◌}
use memory_pack_cpp.Reader.{Read}
use memory_pack_cpp.Reader.Headers.{read_object_header}
use memory_pack_cpp.Writer.{Write}
use memory_pack_cpp.Writer.Headers.{write_object_header}
use memory_pack_cpp.Format.{Formatter, object}
use memory_pack_cpp.Format.Objects.{Member, write_members, read_members}

module _ {T : Type 0} (init : T) (elements : List (Member T)) where
  -- void WriteTuple(const std::tuple<Ts...>& t)
  unfoldable pub write_tuple : T → Write
  unfolding write_members
  write_tuple t = do write_object_header (length elements); write_members elements t

  -- std::tuple<Ts...> ReadTupleImpl(uint8_t cnt, std::index_sequence<Is...>)
  unfoldable pub read_tuple_elements : ℕ → Read T
  unfolding read_members
  read_tuple_elements count = read_members count 0 elements init

  -- std::tuple<Ts...> ReadTuple(), where `init` is the tuple of the values T{}.
  unfoldable pub read_tuple : Read T
  unfolding read_tuple_elements
  read_tuple = do
    header ← read_object_header
    if header.is_null then pure init else read_tuple_elements header.count

  -- MemoryPackFormatter<std::tuple<Ts...>>
  abbrev pub tuple_formatter : Formatter T
  tuple_formatter = record {
    kind = object;
    init = init;
    serialize = write_tuple;
    deserialize = λ _. read_tuple;
  }
