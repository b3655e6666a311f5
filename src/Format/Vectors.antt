-- ===== src/Format/Vectors.antt =====
-- include/memorypack/core.hpp: the vectors and arrays that are copied as one block, and the vectors
-- of bool and of strings.
pub mod Laws
use memory_pack_cpp.Base.{
  ℕ, zero, suc, ◌+◌, ◌-◌, ◌*◌, min, Bool, true, false, not, List, [], ◌∷◌, ◌++◌, length, take, drop,
  map, to_le, from_le, ◌==◌, if◌then◌else◌, Option, none, some,
}
use memory_pack_cpp.Outcome.{pure, ◌>>=◌, ◌>>◌}
use memory_pack_cpp.Reader.{Read, is_failed, ensure_bytes, take_bytes, move}
use memory_pack_cpp.Reader.Headers.{read_collection_length}
use memory_pack_cpp.Reader.Strings.{read_string, or_empty}
use memory_pack_cpp.Writer.{Write, append_byte, append_bytes}
use memory_pack_cpp.Writer.Headers.{write_collection_header, to_int32_length, if_length}
use memory_pack_cpp.Writer.Strings.{write_string}
use memory_pack_cpp.Format.{Formatter, collection}
use memory_pack_cpp.Format.Collections.{is_empty_length}

-- The memory of a T[count] with `size`-byte elements.
abbrev pub block_of : ℕ → List ℕ → List ℕ
block_of size [] = []
block_of size (v ∷ vs) = to_le size v ++ block_of size vs

-- The elements that `count * size` bytes of memory hold.
abbrev pub numbers_of : ℕ → ℕ → List ℕ → List ℕ
numbers_of size zero bs = []
numbers_of size (suc count) bs = from_le (take size bs) ∷ numbers_of size count (drop size bs)

-- void WriteContiguous(const T* data, size_t count)
unfoldable pub write_contiguous : ℕ → List ℕ → Write
write_contiguous size [] = pure tt
write_contiguous size (v ∷ vs) = append_bytes (block_of size (v ∷ vs))

-- void WriteVector(const std::vector<T>& vec), and WriteCollection, for an arithmetic T.
unfoldable pub write_vector : ℕ → List ℕ → Write
unfolding write_contiguous
write_vector size vec = do
  n ← to_int32_length (length vec)
  if_length n λ count. do write_collection_header count; write_contiguous size vec

-- for (bool b : vec) AppendByte(b ? 1 : 0);
unfoldable pub write_bools : List Bool → Write
write_bools [] = pure tt
write_bools (b ∷ bs) = do append_byte (if b then 1 else 0); write_bools bs

-- void WriteVector(const std::vector<bool>& vec)
unfoldable pub write_bool_vector : List Bool → Write
unfolding write_bools
write_bool_vector vec = do
  n ← to_int32_length (length vec)
  if_length n λ count. do write_collection_header count; write_bools vec

-- for (const auto& s : vec) WriteString(s);
unfoldable pub write_strings : List (List ℕ) → Write
write_strings [] = pure tt
write_strings (s ∷ ss) = do write_string s; write_strings ss

-- void WriteStringVector(const std::vector<std::string>& vec)
unfoldable pub write_string_vector : List (List ℕ) → Write
unfolding write_strings
write_string_vector vec = do
  n ← to_int32_length (length vec)
  if_length n λ count. do write_collection_header count; write_strings vec

-- EnsureBytes(count * sizeof(T)), the copy, and the step behind it.
unfoldable pub read_block : {A : Type 0} → ℕ → A → (List ℕ → A) → Read A
read_block n d f = do
  enough ← ensure_bytes n
  if enough then (do bs ← take_bytes n; pure (f bs)) else pure d

-- void ReadVector(std::vector<T>& out), and ReadCollection, for an arithmetic T.
unfoldable pub read_vector : ℕ → Read (List ℕ)
unfolding read_block
read_vector size = do
  len ← read_collection_length size
  if is_empty_length len then pure [] else read_block (len * size) [] (numbers_of size len)

-- void ReadVector(std::vector<bool>& out)
unfoldable pub read_bool_vector : Read (List Bool)
unfolding read_block
read_bool_vector = do
  len ← read_collection_length 1
  if is_empty_length len then pure [] else read_block len [] (map (λ b. not (b == 0)))

-- out.push_back(ReadString().value_or(std::string{})), for i < len && !Failed()
unfoldable pub read_strings : ℕ → Read (List (List ℕ))
read_strings zero = pure []
read_strings (suc left) = do
  bad ← is_failed
  if bad then pure [] else (do s ← read_string; ss ← read_strings left; pure (or_empty s ∷ ss))

-- void ReadStringVector(std::vector<std::string>& out)
unfoldable pub read_string_vector : Read (List (List ℕ))
unfolding read_strings
read_string_vector = do
  len ← read_collection_length 4
  if is_empty_length len then pure [] else read_strings len

-- The elements that ReadArray copies; `none` where it returns 0 for want of input.
unfoldable pub read_front : ℕ → ℕ → Read (Option (List ℕ))
unfolding read_block
read_front size count =
    if count == 0
    then pure (some [])
    else read_block (count * size) none (λ bs. some (numbers_of size count bs))

-- The elements that ReadArray steps over.
unfoldable pub skip_back : ℕ → ℕ → List ℕ → Read (List ℕ)
skip_back size count items = if count == 0 then pure items else (do
  enough ← ensure_bytes (count * size)
  if enough then (do move (count * size); pure items) else pure items)

abbrev pub and_skip : ℕ → ℕ → Option (List ℕ) → Read (List ℕ)
and_skip size count none = pure []
and_skip size count (some items) = skip_back size count items

-- int32_t ReadArray(T* arr, int32_t maxCount): the elements that are stored into `arr`, whose
-- number is the result.
unfoldable pub read_array : ℕ → ℕ → Read (List ℕ)
unfolding read_front skip_back
read_array size max_count = do
  len ← read_collection_length size
  if is_empty_length len then pure [] else (do
    front ← read_front size (min len max_count)
    and_skip size (len - min len max_count) front)

-- MemoryPackFormatter<std::vector<T>> for an arithmetic T of `size` bytes.
abbrev pub number_vector_formatter : ℕ → Formatter (List ℕ)
number_vector_formatter size = record {
  kind = collection;
  init = [];
  serialize = write_vector size;
  deserialize = λ _. read_vector size;
}
