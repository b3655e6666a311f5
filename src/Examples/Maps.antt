-- ===== src/Examples/Maps.antt =====
-- include/memorypack/containers.hpp: maps, sets, tuples and optional vectors on concrete input.
use memory_pack_cpp.Base.{ℕ, ◌≡◌, refl, true, List, [], ◌∷◌, ◌==◌, arith, eq→==true, length, none}
use memory_pack_cpp.Format.Vectors.{block_of, number_vector_formatter}
use memory_pack_cpp.Format.Vectors.Laws.{number_vector-Lawful}
use memory_pack_cpp.Format.Optionals.{read_optional_collection}
use memory_pack_cpp.Format.Optionals.Laws.{IsCounted, optional_collection-Reads}
use memory_pack_cpp.Format.Sets.{has, set_formatter}
use memory_pack_cpp.Format.Sets.Laws.{IsEquality, HasDistinct, read_set-has}
use memory_pack_cpp.Outcome.{returned}
use memory_pack_cpp.Reader.{Reader, new_reader, default_options}
use memory_pack_cpp.Reader.Reads.{Ready, advanced}
use memory_pack_cpp.Format.Primitives.{number_formatter, number-Lawful}
use memory_pack_cpp.Format.Maps.{map_formatter}
use memory_pack_cpp.Format.Maps.Laws.{deserialize_map-Reads}

abbrev input : List ℕ
input = 2 ∷ 0 ∷ 0 ∷ 0 ∷ 5 ∷ 7 ∷ 0 ∷ 6 ∷ 2 ∷ 1 ∷ []

abbrev input_reader : Reader
input_reader = new_reader true default_options input

input_reader-Ready : Ready 0 input_reader
input_reader-Ready = record {
  valid = record { in_bounds = omega arith; fits = omega arith };
  clean = refl;
  collections = omega arith;
  strings = omega arith;
  levels_left = omega arith;
  depth_fits = omega arith;
}

deserialize_map-Reads_example :
    (map_formatter (number_formatter 1) (number_formatter 2) (λ a b. a == b)).deserialize []
      input_reader
    ≡ returned ((5, 7) ∷ (6, 258) ∷ []) (advanced 10 input_reader)
unfolding number-Lawful
deserialize_map-Reads_example =
    deserialize_map-Reads (number_formatter 1) (number_formatter 2) (number-Lawful 1 (omega arith))
      (number-Lawful 2 (omega arith)) (λ a b. a == b) 0 [] ((5, 7) ∷ (6, 258) ∷ []) (omega arith)
      (omega arith) ((omega arith, omega arith), ((omega arith, omega arith), tt))
      (refl, (refl, tt)) (omega arith) input_reader [] input_reader-Ready refl

-- The elements 3, 5, 3.
abbrev repeated : Reader
repeated = new_reader true default_options (3 ∷ 0 ∷ 0 ∷ 0 ∷ 3 ∷ 5 ∷ 3 ∷ [])

repeated-Ready : Ready 0 repeated
repeated-Ready = record {
  valid = record { in_bounds = omega arith; fits = omega arith };
  clean = refl;
  collections = omega arith;
  strings = omega arith;
  levels_left = omega arith;
  depth_fits = omega arith;
}

number-IsEquality : IsEquality (number_formatter 1) (λ a b. a == b)
number-IsEquality = record {
  reflexive = λ x. eq→==true x x refl;
  transitive = λ x y z h k. ground arith;
}

read_set-has_example :
    (s : List ℕ) × ((set_formatter (number_formatter 1) (λ a b. a == b)).deserialize [] repeated
      ≡ returned s (advanced 7 repeated))
    × HasDistinct (number_formatter 1) (λ a b. a == b) [] s
    × ((x : ℕ)
        → has (number_formatter 1) (λ a b. a == b) x s
          ≡ has (number_formatter 1) (λ a b. a == b) x (3 ∷ 5 ∷ 3 ∷ []))
unfolding number-Lawful
read_set-has_example =
    read_set-has (number_formatter 1) (number-Lawful 1 (omega arith)) (λ a b. a == b) 0 []
      (3 ∷ 5 ∷ 3 ∷ []) number-IsEquality (omega arith)
      (omega arith, (omega arith, (omega arith, tt))) (omega arith) repeated [] repeated-Ready refl

-- No numbers at all, which is not the same as an empty vector of them.
abbrev no_vector : Reader
no_vector = new_reader true default_options (255 ∷ 255 ∷ 255 ∷ 255 ∷ [])

no_vector-Ready : Ready 0 no_vector
no_vector-Ready = record {
  valid = record { in_bounds = omega arith; fits = omega arith };
  clean = refl;
  collections = omega arith;
  strings = omega arith;
  levels_left = omega arith;
  depth_fits = omega arith;
}

vector-IsCounted : IsCounted (number_vector_formatter 2) (number_vector-Lawful 2)
unfolding number_vector-Lawful
vector-IsCounted vs h = (length vs, block_of 2 vs, refl, h.1)

optional_collection-Reads_example :
    read_optional_collection (number_vector_formatter 2) no_vector
    ≡ returned none (advanced 4 no_vector)
unfolding number_vector-Lawful
optional_collection-Reads_example =
    optional_collection-Reads (number_vector_formatter 2) (number_vector-Lawful 2) vector-IsCounted
      0 none (omega arith) tt no_vector [] no_vector-Ready refl
