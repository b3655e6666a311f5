-- ===== src/Format/Arrays.antt =====
-- include/memorypack/core.hpp, WriteArray and the arrays that ReadArray fills;
-- include/memorypack/containers.hpp, the formatter of std::array.
pub mod Laws
pub mod Cells
use memory_pack_cpp.Base.{
  ℕ, zero, suc, ◌-◌, Bool, List, [], ◌∷◌, ◌++◌, length, take, drop, replicate, ltb, if◌then◌else◌,
}
use memory_pack_cpp.Outcome.{fault, pure, ◌>>=◌, ◌>>◌}
use memory_pack_cpp.Reader.{Read, is_failed}
use memory_pack_cpp.Reader.Headers.{read_collection_length}
use memory_pack_cpp.Writer.{Write}
use memory_pack_cpp.Writer.Headers.{write_collection_header}
use memory_pack_cpp.Format.{Formatter, collection, object}
use memory_pack_cpp.Format.Collections.{is_empty_length, write_collection}
use memory_pack_cpp.Format.Vectors.{write_contiguous, write_vector, read_array}

-- void WriteArray(const T* arr, int32_t count), on an array with the cells `arr`: it is undefined to
-- copy more than these.
unfoldable pub write_array : ℕ → List ℕ → ℕ → Write
write_array size arr count = do
  write_collection_header count
  if is_empty_length count
      then pure tt
      else if ltb (length arr) count
      then (λ w. fault)
      else write_contiguous size (take count arr)

-- A member `T items[MAX]` with the member that counts the items in use.
pub record FixedArray : Type 0 where
  pub cells : List ℕ
  pub count : ℕ

-- The first cells overwritten by what ReadArray copies.
abbrev pub filled : List ℕ → FixedArray → FixedArray
filled items old = record { cells = items ++ drop (length items) old.cells; count = length items }

-- w.WriteArray(v->items, v->count) and v.count = r.ReadArray(v.items, MAX), as one member.
abbrev pub fixed_array_formatter : ℕ → ℕ → Formatter FixedArray
fixed_array_formatter size max = record {
  kind = collection;
  init = record { cells = replicate max 0; count = 0 };
  serialize = λ v. write_array size v.cells v.count;
  deserialize = λ old. read_array size max >>= λ items. pure (filled items old);
}

-- MemoryPackFormatter<std::array<T, N>> for an arithmetic T of `size` bytes.
abbrev pub number_array_formatter : ℕ → ℕ → Formatter (List ℕ)
number_array_formatter size n = record {
  kind = object;
  init = replicate n 0;
  serialize = write_vector size;
  deserialize = λ _. read_array size n >>= λ items. pure (items ++ replicate (n - length items) 0);
}

-- if (i < N) v[i] = std::move(tmp);
abbrev pub store : {A : Type 0} → ℕ → A → List A → List A
store i x [] = []
store zero x (c ∷ cs) = x ∷ cs
store (suc i) x (c ∷ cs) = c ∷ store i x cs

module _ {A : Type 0} (F : Formatter A) where
  -- for (size_t i = 0; i < count && !r.Failed(); ++i) { T tmp{}; r.Read(tmp); if (i < N) ... }
  unfoldable pub read_cells : ℕ → ℕ → List A → Read (List A)
  read_cells i zero cells = pure cells
  read_cells i (suc left) cells = do
    bad ← is_failed
    if bad
        then pure cells
        else (do x ← F.deserialize F.init; read_cells (suc i) left (store i x cells))

  unfoldable pub read_std_array : ℕ → Read (List A)
  unfolding read_cells
  read_std_array n = do
    len ← read_collection_length 1
    if is_empty_length len then pure (replicate n F.init) else read_cells 0 len (replicate n F.init)

  -- MemoryPackFormatter<std::array<T, N>> for the other T.
  abbrev pub array_formatter : ℕ → Formatter (List A)
  array_formatter n = record {
    kind = object;
    init = replicate n F.init;
    serialize = write_collection F;
    deserialize = λ _. read_std_array n;
  }
