-- ===== src/Examples/Dotnet.antt =====
-- include/memorypack/dotnet.hpp: a Guid, a point in time and halves.
use memory_pack_cpp.Dotnet.Chrono.{from_time_point, to_time_point, from_time_point-to_time_point}
use memory_pack_cpp.Dotnet.Times.{DateTime, get_ticks, from_ticks, utc}
use memory_pack_cpp.Base.{◌+◌, ◌-◌, ◌*◌, ◌/◌, ◌%◌, ◌^◌, ◌≡◌, refl, [], ◌∷◌, some, none, inl, arith}
use memory_pack_cpp.Dotnet.Guid.{Guid, IsValid, parse, to_string}
use memory_pack_cpp.Dotnet.Guid.Text.{parse-to_string}
use memory_pack_cpp.Dotnet.Half.{from_float, to_float}
use memory_pack_cpp.Dotnet.Half.RoundTrip.{from_float-rounds_half_up, from_float-to_float}

abbrev some_guid : Guid
some_guid = record {
  data1 = 0x01234567;
  data2 = 0x89AB;
  data3 = 0xCDEF;
  data4 = 1 ∷ 2 ∷ 3 ∷ 4 ∷ 5 ∷ 6 ∷ 7 ∷ 255 ∷ [];
}

some_guid-IsValid : IsValid some_guid
some_guid-IsValid = record {
  data1_fits = omega arith;
  data2_fits = omega arith;
  data3_fits = omega arith;
  data4_size = refl;
  data4_fits = (
    omega arith,
    (
      omega arith,
      (omega arith, (omega arith, (omega arith, (omega arith, (omega arith, (omega arith, tt)))))),
    ),
  );
}

parse-to_string_example : parse (to_string some_guid) ≡ some some_guid
parse-to_string_example = parse-to_string some_guid some_guid-IsValid

-- A text of another length is no Guid.
short_text : parse (0x30 ∷ 0x31 ∷ []) ≡ none
unfolding parse
short_text = refl

-- 1 + 2^-11, which lies between the halves 1 and 1 + 2^-10: the tie goes to the odd one.
from_float-rounds_half_up_example :
    from_float 0x3F801000
    ≡ 0x3F801000 / 2 ^ 31 * 2 ^ 15 + ((0x3F801000 % 2 ^ 31 + 2 ^ 12) / 2 ^ 13 - 112 * 2 ^ 10)
from_float-rounds_half_up_example =
    from_float-rounds_half_up 0x3F801000 (omega arith) (omega arith) (omega arith)

tie : from_float 0x3F801000 ≡ 0x3C01
tie = from_float-rounds_half_up_example

-- The smallest half.
from_float-to_float_example : from_float (to_float 1) ≡ 1
from_float-to_float_example = from_float-to_float 1 (omega arith) (inl (λ e. cc))

-- Seven ticks before the Unix epoch, with a clock of nanoseconds.
abbrev before_epoch : DateTime
before_epoch = record { date_data = 621355967999999993 }

before_epoch-time_point : to_time_point 100 before_epoch ≡ some (2 ^ 64 - 700)
unfolding to_time_point
before_epoch-time_point = refl

from_time_point-to_time_point_example :
    from_time_point 100 (2 ^ 64 - 700) ≡ some (from_ticks (get_ticks before_epoch) utc)
from_time_point-to_time_point_example =
    from_time_point-to_time_point 100 before_epoch (2 ^ 64 - 700) (omega arith)
      before_epoch-time_point
