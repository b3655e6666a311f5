-- ===== src/Dotnet/Chrono.antt =====
-- include/memorypack/dotnet.hpp: DateTime and TimeSpan from and to std::chrono. How many units of the
-- clock make a tick of 100 ns is a parameter, since it is the standard library's; a count is an int64_t
-- by its bits.
use native.Mathlib.Nat.{mul-div_cancel}
use memory_pack_cpp.Base.{
  ℕ, ◌+◌, ◌-◌, ◌*◌, ◌/◌, ◌%◌, ◌^◌, ◌≤◌, ◌<◌, ◌≡◌, refl, arith, ltb, if◌then◌else◌, Option, some,
  none, Bool-cases, inl, inr, lt→ltb, le→ltb, ltb→lt, ltb→le,
}
use memory_pack_cpp.Dotnet.Times.{DateTime, utc, get_ticks, from_ticks, TimeSpan}

-- TICKS_AT_UNIX_EPOCH
abbrev pub ticks_at_unix_epoch : ℕ
ticks_at_unix_epoch = 621355968000000000

get_ticks-fits : (dt : DateTime) → get_ticks dt < 2 ^ 62
unfolding get_ticks
get_ticks-fits dt = omega arith

module _ (units : ℕ) where
  -- std::chrono::duration_cast to ticks, which cuts off towards 0.
  abbrev pub cast_to_ticks : ℕ → ℕ
  cast_to_ticks count =
      if ltb count (2 ^ 63) then count / units else (2 ^ 64 - (2 ^ 64 - count) / units) % 2 ^ 64

  -- static DateTime FromTimePoint(std::chrono::system_clock::time_point tp); `none` where the sum
  -- overflows.
  unfoldable pub from_time_point : ℕ → Option DateTime
  unfolding from_ticks
  from_time_point count =
      let hundred_ns = cast_to_ticks count in
      let sum = hundred_ns + ticks_at_unix_epoch in
      if ltb hundred_ns (2 ^ 63)
      then (if ltb sum (2 ^ 63) then some (from_ticks sum utc) else none)
      else some (from_ticks (sum % 2 ^ 64) utc)

  -- std::chrono::system_clock::time_point ToTimePoint() const; `none` where the product overflows.
  unfoldable pub to_time_point : DateTime → Option ℕ
  unfolding get_ticks
  to_time_point dt =
      let t = get_ticks dt in
      let after = (t - ticks_at_unix_epoch) * units in
      let before = (ticks_at_unix_epoch - t) * units in
      if ltb t ticks_at_unix_epoch
      then (if ltb (2 ^ 63) before then none else some (2 ^ 64 - before))
      else if ltb after (2 ^ 63)
      then some after
      else none

  -- static TimeSpan FromDuration(std::chrono::duration<Rep, Period> d)
  unfoldable pub from_duration : ℕ → TimeSpan
  from_duration count = record { ticks = cast_to_ticks count }

  -- The ticks of a count that is not negative, and of one that is.
  from_time_point-after :
      (d : ℕ)
      → 0 < units
      → d * units < 2 ^ 63
      → d + ticks_at_unix_epoch < 2 ^ 62
      → from_time_point (d * units) ≡ some (from_ticks (d + ticks_at_unix_epoch) utc)
  unfolding from_time_point
  from_time_point-after d some_units fits small =
      rw
        (
          lt→ltb (d * units) (2 ^ 63) fits,
          mul-div_cancel d some_units,
          lt→ltb d (2 ^ 63) (omega arith),
          lt→ltb (d + ticks_at_unix_epoch) (2 ^ 63) (omega arith),
        )
        refl

  from_time_point-before :
      (d : ℕ)
      → 0 < units
      → 0 < d
      → d ≤ ticks_at_unix_epoch
      → d * units ≤ 2 ^ 63
      → from_time_point (2 ^ 64 - d * units) ≡ some (from_ticks (ticks_at_unix_epoch - d) utc)
  unfolding from_time_point
  from_time_point-before d some_units positive early fits =
      let back : 2 ^ 64 - (2 ^ 64 - d * units) ≡ d * units = omega arith in
      let minus : (2 ^ 64 - d) % 2 ^ 64 ≡ 2 ^ 64 - d = omega arith in
      let sum : (2 ^ 64 - d + ticks_at_unix_epoch) % 2 ^ 64 ≡ ticks_at_unix_epoch - d =
        omega arith in
      rw
        (
          le→ltb (2 ^ 64 - d * units) (2 ^ 63) (omega arith),
          back,
          mul-div_cancel d some_units,
          minus,
          le→ltb (2 ^ 64 - d) (2 ^ 63) (omega arith),
          sum,
        )
        refl

  -- A DateTime that `ToTimePoint` can convert comes back from `FromTimePoint` with its ticks and the kind
  -- Utc, before the Unix epoch as after it. A tick has one unit of the clock at least.
  pub from_time_point-to_time_point :
      (dt : DateTime) (count : ℕ)
      → 0 < units
      → to_time_point dt ≡ some count
      → from_time_point count ≡ some (from_ticks (get_ticks dt) utc)
  unfolding to_time_point
  from_time_point-to_time_point dt count some_units e =
      let t = get_ticks dt in
      let t_fits : t < 2 ^ 62 = get_ticks-fits dt in
      elim (Bool-cases (ltb t ticks_at_unix_epoch)) [
        | inl early ↦
            let before = (ticks_at_unix_epoch - t) * units in
            let less = ltb→lt t ticks_at_unix_epoch early in
            elim (Bool-cases (ltb (2 ^ 63) before)) [
              | inl over ↦ let e' : none ≡ some count = rw (early, over) at e in cc
              | inr fits ↦
                  let e' : some (2 ^ 64 - before) ≡ some count = rw (early, fits) at e in
                  let same : 2 ^ 64 - before ≡ count = cc in
                  let back : ticks_at_unix_epoch - (ticks_at_unix_epoch - t) ≡ t =
                    omega (arith, less) in
                  rw (← same) (
                    rw back at (
                      from_time_point-before (ticks_at_unix_epoch - t) some_units
                        (omega (arith, less)) (omega arith) (ltb→le (2 ^ 63) before fits)))
            ]
        | inr late ↦
            let after = (t - ticks_at_unix_epoch) * units in
            let least = ltb→le t ticks_at_unix_epoch late in
            elim (Bool-cases (ltb after (2 ^ 63))) [
              | inl fits ↦
                  let e' : some after ≡ some count = rw (late, fits) at e in
                  let same : after ≡ count = cc in
                  let back : t - ticks_at_unix_epoch + ticks_at_unix_epoch ≡ t =
                    omega (arith, least) in
                  rw (← same) (
                    rw back at (
                      from_time_point-after (t - ticks_at_unix_epoch) some_units
                        (ltb→lt after (2 ^ 63) fits) (omega (arith, t_fits, least))))
              | inr over ↦ let e' : none ≡ some count = rw (late, over) at e in cc
            ]
      ]
