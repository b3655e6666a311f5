-- ===== src/Dotnet/Times.antt =====
-- include/memorypack/dotnet.hpp: DateTime, TimeSpan and DateTimeOffset. Fields that do not overlap
-- are added where the source joins them by `|`.
use memory_pack_cpp.Base.{
  ℕ, ◌+◌, ◌-◌, ◌*◌, ◌/◌, ◌%◌, ◌^◌, ◌<◌, ◌≡◌, arith, ltb, leb, if◌then◌else◌, Option, some, none,
}

-- enum class DateTimeKind
pub data DateTimeKind : Type 0 where
  unspecified utc local : DateTimeKind

abbrev pub kind_bits : DateTimeKind → ℕ
kind_bits unspecified = 0
kind_bits utc = 1
kind_bits local = 2

-- struct DateTime
pub record DateTime : Type 0 where
  pub date_data : ℕ

-- Ticks GetTicks() const
unfoldable pub get_ticks : DateTime → ℕ
get_ticks dt = dt.date_data % 2 ^ 62

-- DateTimeKind GetKind() const, as the number of the enumerator.
unfoldable pub get_kind : DateTime → ℕ
get_kind dt = dt.date_data / 2 ^ 62 % 2 ^ 2

-- static DateTime FromTicks(Ticks ticks, DateTimeKind kind)
unfoldable pub from_ticks : ℕ → DateTimeKind → DateTime
from_ticks ticks kind = record { date_data = ticks % 2 ^ 62 + kind_bits kind * 2 ^ 62 }

-- A DateTime gives back the ticks and the kind that it is made of, and fits its 64 bits, where the
-- ticks fit 62 bits.
pub from_ticks-fields :
    (ticks : ℕ) (kind : DateTimeKind)
    → ticks < 2 ^ 62
    → (get_ticks (from_ticks ticks kind) ≡ ticks)
      × (get_kind (from_ticks ticks kind) ≡ kind_bits kind)
      × ((from_ticks ticks kind).date_data < 2 ^ 64)
unfolding get_ticks get_kind from_ticks
from_ticks-fields ticks unspecified h = (omega arith, omega arith, omega arith)
from_ticks-fields ticks utc h = (omega arith, omega arith, omega arith)
from_ticks-fields ticks local h = (omega arith, omega arith, omega arith)

-- struct TimeSpan
pub record TimeSpan : Type 0 where
  pub ticks : ℕ

-- std::chrono::nanoseconds ToDuration() const, by its bits; `none` where ticks * 100 overflows.
unfoldable pub to_duration : TimeSpan → Option ℕ
to_duration span =
    let t = span.ticks in
    let m = 2 ^ 64 - t in
    if ltb t (2 ^ 63)
    then (if ltb (t * 100) (2 ^ 63) then some (t * 100) else none)
    else if leb (m * 100) (2 ^ 63)
    then some (2 ^ 64 - m * 100)
    else none

-- struct DateTimeOffset
pub record DateTimeOffset : Type 0 where
  pub offset_minutes : ℕ
  pub date_time : DateTime
