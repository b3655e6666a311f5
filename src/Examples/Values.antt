-- ===== src/Examples/Values.antt =====
-- include/memorypack/core.hpp: readers, formatters and the top-level functions on small values.
use memory_pack_cpp.Endian.{memory_of, endian_convert, memory_of-endian_convert}
use memory_pack_cpp.Base.{
  ℕ, ◌^◌, ◌≤◌, ◌<◌, ◌≡◌, ◌⊎◌, refl, true, false, List, [], ◌∷◌, ◌++◌, length, some, arith,
}
use memory_pack_cpp.Outcome.{MemoryPackError, returned, Ensures}
use memory_pack_cpp.Wire.{string_wire}
use memory_pack_cpp.Text.{utf16_length_from_utf8, count_units}
use memory_pack_cpp.Text.Units.{utf16_length_from_utf8-count_units}
use memory_pack_cpp.Reader.{Reader, IsValid, new_reader, default_options}
use memory_pack_cpp.Reader.Safe.{Kept, Raised, SafeFrom}
use memory_pack_cpp.Reader.Reads.{Ready, advanced}
use memory_pack_cpp.Reader.Headers.{read_collection_length, read_union_header, read_varint_length}
use memory_pack_cpp.Reader.Headers.Safe.{Plausible, read_collection_length_lem}
use memory_pack_cpp.Reader.Strings.{read_string}
use memory_pack_cpp.Reader.Strings.Safe.{read_string-Safe}
use memory_pack_cpp.Reader.Strings.Reads.{read_string-Reads}
use memory_pack_cpp.Format.{Formatter, Lawful}
use memory_pack_cpp.Format.Primitives.{
  number_formatter, number-Lawful, number-IsSafe, string_formatter, string-Lawful, string-IsSafe,
}
use memory_pack_cpp.Format.Collections.{vector_formatter}
use memory_pack_cpp.Format.Collections.Laws.{vector-Lawful}
use memory_pack_cpp.Format.Objects.{Member, object_formatter, deserialize_object}
use memory_pack_cpp.Format.Objects.Laws.{
  AllLawful, AllSafe, object-Lawful, object-IsSafe, deserialize_object-Reads,
}
use memory_pack_cpp.Api.{value, serialize, deserialize, deserialize_exact, try_deserialize}
use memory_pack_cpp.Api.RoundTrip.{deserialize_exact-serialize}
use memory_pack_cpp.Api.Untrusted.{try_deserialize-Reports, Reports}

-- An object of a 32-bit number and a string.
abbrev Player : Type 0
Player = ℕ × List ℕ

abbrev player_members : List (Member Player)
player_members =
    (record { Field = ℕ; format = number_formatter 4; get = λ p. p.0; set = λ v p. (v, p.1) })
    ∷ (record { Field = List ℕ; format = string_formatter; get = λ p. p.1; set = λ v p. (p.0, v) })
    ∷ []

abbrev players-Lawful : AllLawful player_members
players-Lawful = (number-Lawful 4 (omega arith), (string-Lawful, tt))

abbrev players-IsSafe : AllSafe player_members
players-IsSafe = (number-IsSafe 4, (string-IsSafe, tt))

abbrev player_formatter : Formatter Player
player_formatter = object_formatter (0, []) player_members

abbrev player-Lawful : Lawful player_formatter
player-Lawful = object-Lawful (0, []) player_members players-Lawful (omega arith) (λ v old. refl)

-- {258, "Hi"}
abbrev player : Player
player = (258, 0x48 ∷ 0x69 ∷ [])

abbrev player_bytes : List ℕ
player_bytes = 2 ∷ 2 ∷ 1 ∷ 0 ∷ 0 ∷ 0xFD ∷ 0xFF ∷ 0xFF ∷ 0xFF ∷ 2 ∷ 0 ∷ 0 ∷ 0 ∷ 0x48 ∷ 0x69 ∷ []

serialized_player : serialize true player_formatter player ≡ value player_bytes
unfolding serialize memory_pack_cpp.Format.Objects.serialize_object
    memory_pack_cpp.Writer.Headers.write_object_header memory_pack_cpp.Writer.append_byte
    memory_pack_cpp.Format.Objects.write_members memory_pack_cpp.Writer.Headers.write_raw
    memory_pack_cpp.Writer.append_bytes memory_pack_cpp.Writer.Strings.write_string
    memory_pack_cpp.Writer.Headers.to_int32_length memory_pack_cpp.Writer.take_buffer
    utf16_length_from_utf8 count_units
serialized_player = refl

read_player : deserialize true player_formatter player_bytes ≡ value player
unfolding deserialize deserialize_object memory_pack_cpp.Reader.Headers.read_object_header
    memory_pack_cpp.Reader.Headers.read_byte memory_pack_cpp.Reader.ensure_bytes
    memory_pack_cpp.Reader.take_bytes memory_pack_cpp.Reader.enter_object
    memory_pack_cpp.Format.Objects.read_members memory_pack_cpp.Reader.Headers.read_raw
    memory_pack_cpp.Reader.Strings.read_string_into memory_pack_cpp.Reader.is_failed
    memory_pack_cpp.Reader.leave_object
read_player = refl

-- A reader of the build with exceptions, with the default limits.
abbrev reader_of : List ℕ → Reader
reader_of input = new_reader true default_options input

reader_of-IsValid : (input : List ℕ) → length input < 2 ^ 64 → IsValid (reader_of input)
reader_of-IsValid input small = record { in_bounds = omega arith; fits = small }

reader_of-Ready :
    (n : ℕ) (input : List ℕ) → length input < 2 ^ 64 → n ≤ 256 → Ready n (reader_of input)
reader_of-Ready n input small deep = record {
  valid = reader_of-IsValid input small;
  clean = refl;
  collections = omega arith;
  strings = omega arith;
  levels_left = omega arith;
  depth_fits = omega arith;
}

deserialize_exact-serialize_example :
    (bytes : List ℕ) × (serialize false (vector_formatter player_formatter) (player ∷ [])
      ≡ value bytes)
    × (deserialize_exact false (vector_formatter player_formatter) bytes ≡ value (player ∷ []))
unfolding vector-Lawful object-Lawful number-Lawful string-Lawful string_wire
deserialize_exact-serialize_example =
    deserialize_exact-serialize false (vector_formatter player_formatter)
      (vector-Lawful player_formatter player-Lawful) (player ∷ [])
      (((omega arith, (omega arith, tt)), tt), omega arith) (omega arith) (omega arith)

try_deserialize-Reports_example :
    (r : Player ⊎ MemoryPackError) × (try_deserialize false player_formatter (2 ∷ 1 ∷ []) ≡ value r)
    × Reports
        (player_formatter.deserialize player_formatter.init
          (new_reader false default_options (2 ∷ 1 ∷ [])))
        r
try_deserialize-Reports_example =
    try_deserialize-Reports false player_formatter (2 ∷ 1 ∷ [])
      (object-IsSafe (0, []) player_members players-IsSafe) (omega arith)

-- A sender that knows the number only: the string stays.
deserialize_object-Reads_example :
    deserialize_object
      (0, [])
      player_members
      (3, 0x41 ∷ [])
      (reader_of (1 ∷ 2 ∷ 1 ∷ 0 ∷ 0 ∷ 9 ∷ []))
    ≡ returned (258, 0x41 ∷ []) (advanced 5 (reader_of (1 ∷ 2 ∷ 1 ∷ 0 ∷ 0 ∷ 9 ∷ [])))
unfolding number-Lawful string-Lawful
deserialize_object-Reads_example =
    deserialize_object-Reads 2 1 (0, []) player_members players-Lawful player (3, 0x41 ∷ [])
      (omega arith) (omega arith) (omega arith) (omega arith, (omega arith, tt))
      (reader_of (1 ∷ 2 ∷ 1 ∷ 0 ∷ 0 ∷ 9 ∷ [])) (9 ∷ [])
      (reader_of-Ready 2 (1 ∷ 2 ∷ 1 ∷ 0 ∷ 0 ∷ 9 ∷ []) (omega arith) (omega arith)) refl

object-IsSafe_example :
    SafeFrom
      (reader_of (2 ∷ 1 ∷ []))
      (deserialize_object (0, []) player_members (3, []) (reader_of (2 ∷ 1 ∷ [])))
object-IsSafe_example =
    object-IsSafe (0, []) player_members players-IsSafe (3, []) (reader_of (2 ∷ 1 ∷ []))
      (reader_of-IsValid (2 ∷ 1 ∷ []) (omega arith))

abbrev two_shorts : List ℕ
two_shorts = 2 ∷ 0 ∷ 0 ∷ 0 ∷ 7 ∷ 0 ∷ 2 ∷ 1 ∷ []

read_collection_length_lem_example :
    Ensures
      (λ len r'. Kept (reader_of (9 ∷ 0 ∷ 0 ∷ 0 ∷ 1 ∷ [])) r' × Plausible 1 len r')
      (Raised (reader_of (9 ∷ 0 ∷ 0 ∷ 0 ∷ 1 ∷ [])))
      (read_collection_length 1 (reader_of (9 ∷ 0 ∷ 0 ∷ 0 ∷ 1 ∷ [])))
read_collection_length_lem_example =
    read_collection_length_lem 1 (reader_of (9 ∷ 0 ∷ 0 ∷ 0 ∷ 1 ∷ []))
      (reader_of-IsValid (9 ∷ 0 ∷ 0 ∷ 0 ∷ 1 ∷ []) (omega arith))

read_string-Safe_example :
    SafeFrom
      (reader_of (3 ∷ 0 ∷ 0 ∷ 0 ∷ 0 ∷ 0xD8 ∷ []))
      (read_string (reader_of (3 ∷ 0 ∷ 0 ∷ 0 ∷ 0 ∷ 0xD8 ∷ [])))
read_string-Safe_example =
    read_string-Safe (reader_of (3 ∷ 0 ∷ 0 ∷ 0 ∷ 0 ∷ 0xD8 ∷ []))
      (reader_of-IsValid (3 ∷ 0 ∷ 0 ∷ 0 ∷ 0 ∷ 0xD8 ∷ []) (omega arith))

abbrev greeting : List ℕ
greeting = string_wire (0x48 ∷ 0x69 ∷ []) ++ (7 ∷ [])

read_string-Reads_example :
    read_string (reader_of greeting)
    ≡ returned
        (some (0x48 ∷ 0x69 ∷ []))
        (advanced (length (string_wire (0x48 ∷ 0x69 ∷ []))) (reader_of greeting))
unfolding string_wire
read_string-Reads_example =
    read_string-Reads (0x48 ∷ 0x69 ∷ []) (omega arith) (reader_of greeting) (7 ∷ [])
      (reader_of-Ready 0 greeting (omega arith) (omega arith)) refl

utf16_length_from_utf8-count_units_example :
    utf16_length_from_utf8 (0x41 ∷ 0xF0 ∷ 0x9D ∷ 0x84 ∷ 0x9E ∷ 0x42 ∷ 0x43 ∷ 0x44 ∷ 0x45 ∷ [])
    ≡ count_units (0x41 ∷ 0xF0 ∷ 0x9D ∷ 0x84 ∷ 0x9E ∷ 0x42 ∷ 0x43 ∷ 0x44 ∷ 0x45 ∷ []) 0
utf16_length_from_utf8-count_units_example =
    utf16_length_from_utf8-count_units
      (0x41 ∷ 0xF0 ∷ 0x9D ∷ 0x84 ∷ 0x9E ∷ 0x42 ∷ 0x43 ∷ 0x44 ∷ 0x45 ∷ [])

-- The 32-bit number 0x01020304 on a big-endian host.
memory_of-endian_convert_example :
    memory_of false 4 (endian_convert false 4 0x01020304) ≡ 4 ∷ 3 ∷ 2 ∷ 1 ∷ []
memory_of-endian_convert_example = memory_of-endian_convert false 4 0x01020304
