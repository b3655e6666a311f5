-- ===== src/Examples/Unions.antt =====
-- include/memorypack/containers.hpp: a union of a number, with tag 1, and a string, with tag 300.
use memory_pack_cpp.Base.{
  ℕ, ◌<◌, ◌≡◌, ◌⊎◌, inl, inr, refl, true, List, [], ◌∷◌, ◌++◌, length, Option, none, some, arith,
}
use memory_pack_cpp.Outcome.{returned}
use memory_pack_cpp.Wire.{union_wire, string_wire}
use memory_pack_cpp.Reader.{Reader, new_reader, default_options}
use memory_pack_cpp.Reader.Reads.{Ready, advanced}
use memory_pack_cpp.Format.Primitives.{
  number_formatter, number-IsSafe, string_formatter, string-Lawful, string-IsSafe,
}
use memory_pack_cpp.Format.Unions.{Alternative, deserialize_variant}
use memory_pack_cpp.Format.Unions.Laws.{
  AlternativesSafe, deserialize_variant-Reads, deserialize_variant-unknown,
}

abbrev Shape : Type 0
Shape = ℕ ⊎ List ℕ

abbrev number_of : Shape → Option ℕ
number_of (inl v) = some v
number_of (inr s) = none

abbrev text_of : Shape → Option (List ℕ)
text_of (inl v) = none
text_of (inr s) = some s

abbrev number : Alternative Shape
number = record {
  Value = ℕ;
  format = number_formatter 4;
  tag = 1;
  get_if = number_of;
  emplace = λ v. inl v;
}

abbrev text : Alternative Shape
text = record {
  Value = List ℕ;
  format = string_formatter;
  tag = 300;
  get_if = text_of;
  emplace = λ s. inr s;
}

abbrev shapes : List (Alternative Shape)
shapes = number ∷ text ∷ []

abbrev shapes-Safe : AlternativesSafe shapes
shapes-Safe = (number-IsSafe 4, (string-IsSafe, tt))

abbrev reader_of : List ℕ → Reader
reader_of input = new_reader true default_options input

reader_of-Ready : (input : List ℕ) → length input < 1000 → Ready 0 (reader_of input)
reader_of-Ready input small = record {
  valid = record { in_bounds = omega arith; fits = omega arith };
  clean = refl;
  collections = omega arith;
  strings = omega arith;
  levels_left = omega arith;
  depth_fits = omega arith;
}

abbrev tagged_text : List ℕ
tagged_text = union_wire 300 ++ string_wire (0x48 ∷ 0x69 ∷ [])

deserialize_variant-Reads_example :
    deserialize_variant (inl 0) shapes (inl 7) (reader_of tagged_text)
    ≡ returned (inr (0x48 ∷ 0x69 ∷ [])) (advanced (length tagged_text) (reader_of tagged_text))
unfolding string-Lawful union_wire string_wire
deserialize_variant-Reads_example =
    deserialize_variant-Reads (inl 0) (number ∷ []) [] text string-Lawful (inl 7) (0x48 ∷ 0x69 ∷ [])
      0 ((λ e. cc), tt) (omega arith) (omega arith) (omega arith) (reader_of tagged_text) []
      (reader_of-Ready tagged_text (omega arith)) refl

deserialize_variant-unknown_example :
    deserialize_variant (inl 0) shapes (inl 7) (reader_of (9 ∷ 2 ∷ 2 ∷ []))
    ≡ returned (inl 7) (record (reader_of (9 ∷ 2 ∷ 2 ∷ [])) { pos = 3 })
unfolding union_wire
deserialize_variant-unknown_example =
    deserialize_variant-unknown (inl 0) shapes (inl 7) 9 0 ((λ e. cc), ((λ e. cc), tt))
      (omega arith) (reader_of (9 ∷ 2 ∷ 2 ∷ [])) (2 ∷ 2 ∷ [])
      (reader_of-Ready (9 ∷ 2 ∷ 2 ∷ []) (omega arith)) refl
