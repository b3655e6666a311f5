-- ===== src/Dotnet/Vectors.antt =====
-- include/memorypack/dotnet.hpp: Vector2, Vector3, Vector4 and Quaternion, by the bit patterns of
-- their floats in the order of declaration.
use memory_pack_cpp.Base.{ℕ, ◌*◌, ◌<◌, ◌≡◌, sym, ap, List, length, replicate, arith}
use memory_pack_cpp.Writer.Appends.{append_bytes-Writes}
use memory_pack_cpp.Format.{
  Formatter, Lawful, IsSafe, unmanaged, min_encoded_size, container_min_size,
}
use memory_pack_cpp.Format.Vectors.{block_of, numbers_of, read_block}
use memory_pack_cpp.Format.Vectors.Laws.{
  NumbersFit, read_block-Safe, read_block-Reads, length-block_of, numbers_of-block_of,
}
use memory_pack_cpp.Format.Unmanaged.{write_unmanaged}

-- MEMORYPACK_UNMANAGED_EXACT for a struct of `count` floats.
abbrev pub floats_formatter : ℕ → Formatter (List ℕ)
floats_formatter count = record {
  kind = unmanaged;
  init = replicate count 0;
  serialize = λ v. write_unmanaged (block_of 4 v);
  deserialize = λ _. read_block (count * 4) (replicate count 0) (numbers_of 4 count);
}

pub floats-IsSafe : (count : ℕ) → IsSafe (floats_formatter count)
floats-IsSafe count old = read_block-Safe (count * 4) (replicate count 0) (numbers_of 4 count)

unfoldable pub floats-Lawful : (count : ℕ) → 0 < count → Lawful (floats_formatter count)
unfolding write_unmanaged min_encoded_size container_min_size
floats-Lawful count some_floats = record {
  wire = block_of 4;
  IsEncodable = λ v. NumbersFit 4 v × (length v ≡ count);
  levels = 0;
  writes = λ v _. append_bytes-Writes (block_of 4 v);
  reads = λ n old v _ h.
      rw (ap (λ (k : ℕ). numbers_of 4 k (block_of 4 v)) (sym h.1), numbers_of-block_of 4 v h.0) at
        (read_block-Reads {levels = n} (count * 4) (replicate count 0) (numbers_of 4 count)
          (block_of 4 v) (omega (arith, length-block_of 4 v, h.1)));
  large = λ v h. omega (arith, length-block_of 4 v, h.1);
}
