-- ===== src/Format/Primitives.antt =====
-- include/memorypack/core.hpp: the formatters of bool, the arithmetic types, enums and std::string.
use memory_pack_cpp.Base.{
  ℕ, ◌≤◌, ◌<◌, ◌^◌, Bool, false, List, [], ◌∷◌, length, to_le, arith, length-to_le,
}
use memory_pack_cpp.Reader.Reads.{Reads-map}
use memory_pack_cpp.Reader.Headers.{read_byte, read_raw, read_bool}
use memory_pack_cpp.Reader.Headers.Safe.{read_byte-Safe, read_raw-Safe, read_bool-Safe}
use memory_pack_cpp.Reader.Headers.Reads.{read_byte-Reads, read_raw-Reads, read_bool-Reads}
use memory_pack_cpp.Reader.Strings.{read_string, read_string_into, or_empty}
use memory_pack_cpp.Reader.Strings.Safe.{read_string_into-Safe}
use memory_pack_cpp.Reader.Strings.Reads.{read_string-Reads}
use memory_pack_cpp.Writer.{append_byte}
use memory_pack_cpp.Writer.Appends.{append_byte-Writes}
use memory_pack_cpp.Writer.Headers.{write_raw, write_bool}
use memory_pack_cpp.Writer.Headers.Writes.{write_raw-Writes, write_bool-Writes}
use memory_pack_cpp.Writer.Strings.{write_string, write_string-Writes}
use memory_pack_cpp.Wire.{bool_byte, string_wire}
use memory_pack_cpp.Format.{
  Formatter, Lawful, IsSafe, arithmetic, string, min_encoded_size, container_min_size,
}

-- MemoryPackFormatter<bool>
abbrev pub bool_formatter : Formatter Bool
bool_formatter = record {
  kind = arithmetic 1;
  init = false;
  serialize = write_bool;
  deserialize = λ _. read_bool;
}

unfoldable pub bool-Lawful : Lawful bool_formatter
unfolding min_encoded_size container_min_size
bool-Lawful = record {
  wire = λ b. bool_byte b ∷ [];
  IsEncodable = λ _. Unit {0};
  levels = 0;
  writes = λ b _. write_bool-Writes b;
  reads = λ n old b _ _. read_bool-Reads b;
  large = λ b _. omega arith;
}

pub bool-IsSafe : IsSafe bool_formatter
bool-IsSafe old = read_bool-Safe

-- MemoryPackFormatter<T> for an arithmetic or enum T of one byte: WriteUInt8 and ReadUInt8.
abbrev pub byte_formatter : Formatter ℕ
byte_formatter = record {
  kind = arithmetic 1;
  init = 0;
  serialize = append_byte;
  deserialize = λ _. read_byte;
}

unfoldable pub byte-Lawful : Lawful byte_formatter
unfolding min_encoded_size container_min_size
byte-Lawful = record {
  wire = λ b. b ∷ [];
  IsEncodable = λ b. b < 256;
  levels = 0;
  writes = λ b _. append_byte-Writes b;
  reads = λ n old b _ _. read_byte-Reads b;
  large = λ b _. omega arith;
}

pub byte-IsSafe : IsSafe byte_formatter
byte-IsSafe old = read_byte-Safe

-- MemoryPackFormatter<T> for the wider ones, `size` bytes each. A signed or floating value is its
-- bit pattern.
abbrev pub number_formatter : ℕ → Formatter ℕ
number_formatter size = record {
  kind = arithmetic size;
  init = 0;
  serialize = write_raw size;
  deserialize = λ _. read_raw size;
}

unfoldable pub number-Lawful : (size : ℕ) → 0 < size → Lawful (number_formatter size)
unfolding min_encoded_size container_min_size
number-Lawful size some_bytes = record {
  wire = to_le size;
  IsEncodable = λ v. v < 256 ^ size;
  levels = 0;
  writes = λ v _. write_raw-Writes size v;
  reads = λ n old v _ h. read_raw-Reads size v h;
  large = λ v _. omega (arith, length-to_le size v);
}

pub number-IsSafe : (size : ℕ) → IsSafe (number_formatter size)
number-IsSafe size old = read_raw-Safe size

-- MemoryPackFormatter<std::string>
abbrev pub string_formatter : Formatter (List ℕ)
string_formatter = record {
  kind = string;
  init = [];
  serialize = write_string;
  deserialize = λ _. read_string_into;
}

pub string_wire_large : (s : List ℕ) → 4 ≤ length (string_wire s)
unfolding string_wire
string_wire_large [] = omega arith
string_wire_large (c ∷ cs) = omega arith

unfoldable pub string-Lawful : Lawful string_formatter
unfolding min_encoded_size container_min_size read_string_into
string-Lawful = record {
  wire = string_wire;
  IsEncodable = λ s. length s < 2 ^ 31;
  levels = 0;
  writes = write_string-Writes;
  reads = λ n old s _ h. Reads-map read_string or_empty (string_wire s) (read_string-Reads s h);
  large = λ s _. omega (arith, string_wire_large s);
}

pub string-IsSafe : IsSafe string_formatter
string-IsSafe old = read_string_into-Safe
