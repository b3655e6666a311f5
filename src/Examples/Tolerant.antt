-- ===== src/Examples/Tolerant.antt =====
-- include/memorypack/core.hpp, VersionTolerantReader: an object with one member of three bytes, of
-- which the receiver knows two.
use memory_pack_cpp.Base.{◌≡◌, inr, refl, true, false, [], ◌∷◌, arith}
use memory_pack_cpp.Outcome.{returned}
use memory_pack_cpp.Reader.{Reader, IsValid, new_reader, default_options}
use memory_pack_cpp.Reader.Reads.{Ready}
use memory_pack_cpp.Reader.Safe.{SafeFrom}
use memory_pack_cpp.Format.Primitives.{number_formatter, number-Lawful, number-IsSafe}
use memory_pack_cpp.VersionTolerant.{VersionTolerantReader, read_member, skip_member, finish}
use memory_pack_cpp.VersionTolerant.Defined.{SafeWith, IsMeasured, IsMeasured-IsSafe}
use memory_pack_cpp.VersionTolerant.Grown.{read_member-grown}

abbrev grown : Reader
grown = new_reader true default_options (1 ∷ 3 ∷ 2 ∷ 1 ∷ 9 ∷ 7 ∷ [])

grown-IsValid : IsValid grown
grown-IsValid = record { in_bounds = omega arith; fits = omega arith }

abbrev one_member : VersionTolerantReader
one_member = record { lengths = 3 ∷ []; count = 1; index = 0; next = 2; is_null = false }

IsMeasured-IsSafe_example :
    SafeWith
      (λ m s. IsMeasured m.object)
      grown
      (read_member (number_formatter 2) one_member 0 grown)
    × SafeWith (λ vt' s. IsMeasured vt') grown (skip_member one_member grown)
    × SafeFrom grown (finish one_member grown)
IsMeasured-IsSafe_example =
    IsMeasured-IsSafe (number_formatter 2) one_member 0 grown (number-IsSafe 2) (inr refl)
      grown-IsValid

read_member-grown_example :
    read_member (number_formatter 2) one_member 0 grown
    ≡ returned
        (record { object = record one_member { index = 1; next = 5 }; out = 258; found = true })
        (record grown { pos = 5 })
unfolding number-Lawful
read_member-grown_example =
    let ready : Ready 0 grown = record {
      valid = grown-IsValid;
      clean = refl;
      collections = omega arith;
      strings = omega arith;
      levels_left = omega arith;
      depth_fits = omega arith;
    } in
    read_member-grown (number_formatter 2) (number-Lawful 2 (omega arith)) 0 one_member 0 258
      (9 ∷ []) (7 ∷ []) grown (omega arith) (omega arith) ready refl (omega arith) refl
      (omega arith) refl
