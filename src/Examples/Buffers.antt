-- ===== src/Examples/Buffers.antt =====
-- include/memorypack/core.hpp: the writer's buffers, optional values and truncated objects.
use memory_pack_cpp.Base.{
  ℕ, ◌<◌, ◌≡◌, refl, false, true, List, [], ◌∷◌, ◌++◌, length, none, some, arith, get_elem?, inl,
  inr,
}
use memory_pack_cpp.Format.Unmanaged.{Placed, write_scrubbed}
use memory_pack_cpp.Format.Unmanaged.Padding.{write_scrubbed-padding}
use memory_pack_cpp.Outcome.{returned, fault}
use memory_pack_cpp.Writer.{written, Writer, new_writer, append_bytes}
use memory_pack_cpp.Writer.Appends.{IsValid, Wrote, append_bytes-Writes}
use memory_pack_cpp.Reader.{Reader, new_reader, default_options}
use memory_pack_cpp.Reader.Reads.{Ready, advanced}
use memory_pack_cpp.Format.Primitives.{number_formatter, number-Lawful, bool_formatter, bool-Lawful}
use memory_pack_cpp.Format.Nullable.{read_reference, write_reference}
use memory_pack_cpp.Format.Nullable.Laws.{IsHeaded, reference-lost}
use memory_pack_cpp.VersionTolerant.Truncated.{read_two, read_two-fault}

new_writer-IsValid : IsValid (new_writer true)
new_writer-IsValid = record { owned_fits = omega arith; fixed_fits = tt }

append_bytes-Writes_example :
    (w' : Writer) × (append_bytes (1 ∷ 2 ∷ []) (new_writer true) ≡ returned tt w')
    × Wrote (new_writer true) (1 ∷ 2 ∷ []) w'
unfolding written
append_bytes-Writes_example =
    append_bytes-Writes (1 ∷ 2 ∷ []) (new_writer true) new_writer-IsValid (omega arith)

abbrev reader_of : List ℕ → Reader
reader_of input = new_reader true default_options input

reader_of-Ready : (input : List ℕ) → length input < 1000 → Ready 0 (reader_of input)
reader_of-Ready input small = record {
  valid = record { in_bounds = omega arith; fits = omega arith };
  clean = refl;
  collections = omega arith;
  strings = omega arith;
  levels_left = omega arith;
  depth_fits = omega arith;
}

-- No bool is encoded as 255.
bools_headed : IsHeaded bool_formatter bool-Lawful
unfolding bool-Lawful
bools_headed true h = (1, [], refl, λ e. cc)
bools_headed false h = (0, [], refl, λ e. cc)

-- A two-byte number, as a TimeSpan or a Guid whose first byte is 255.
reference-lost_example :
    ((w' : Writer) × (write_reference (number_formatter 2) (some 511) (new_writer true)
        ≡ returned tt w')
      × Wrote (new_writer true) (255 ∷ 1 ∷ []) w')
    × (read_reference (number_formatter 2) (reader_of (255 ∷ 1 ∷ []))
        ≡ returned none (advanced 1 (reader_of (255 ∷ 1 ∷ []))))
unfolding number-Lawful written
reference-lost_example =
    reference-lost (number_formatter 2) (number-Lawful 2 (omega arith)) 0 511 (1 ∷ []) []
      (new_writer true) (reader_of (255 ∷ 1 ∷ [])) refl (omega arith) new_writer-IsValid
      (omega arith) (reader_of-Ready (255 ∷ 1 ∷ []) (omega arith)) refl

read_two-fault_example :
    read_two (number_formatter 4) 0 (new_reader false default_options (2 ∷ [])) ≡ fault
read_two-fault_example = read_two-fault default_options (number_formatter 4) 0 0 (omega arith)

-- A bool at offset 0 and an int32_t at offset 4, with three bytes of padding between.
abbrev bool_and_int : List Placed
bool_and_int = (0, 1 ∷ []) ∷ (4, 7 ∷ 0 ∷ 0 ∷ 0 ∷ []) ∷ []

write_scrubbed-padding_example :
    (bytes : List ℕ) × (w' : Writer) × (write_scrubbed 8 bool_and_int (new_writer true)
      ≡ returned tt w')
    × (written w' ≡ written (new_writer true) ++ bytes)
    × (length bytes ≡ 8)
    × (get_elem? bytes 2 ≡ some 0)
unfolding written
write_scrubbed-padding_example =
    write_scrubbed-padding 8 bool_and_int 2 (new_writer true) (omega arith, (omega arith, tt))
      (inr (omega arith), (inl (omega arith), tt)) (omega arith) new_writer-IsValid (omega arith)
