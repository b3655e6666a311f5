-- ===== src/Dotnet/Formatters/Laws.antt =====
-- include/memorypack/dotnet.hpp: the .NET value types are safe to read and come back as written.
use memory_pack_cpp.Base.{
  ℕ, zero, suc, ◌+◌, ◌<◌, ◌^◌, ◌≡◌, refl, ap, List, [], ◌∷◌, ◌++◌, length, replicate, to_le, arith,
}
use memory_pack_cpp.Outcome.{returned}
use memory_pack_cpp.Reader.{Reader, advance, move}
use memory_pack_cpp.Reader.Safe.{Safe, Safe-bind, Safe-pure, advance-Safe}
use memory_pack_cpp.Reader.Reads.{
  Ready, Reads, Ahead, advanced, Reads-bind, Reads-pure, Reads-map, ensure_bytes-Ready,
}
use memory_pack_cpp.Reader.Headers.{read_byte, read_raw}
use memory_pack_cpp.Reader.Headers.Safe.{read_byte-Safe, read_raw-Safe}
use memory_pack_cpp.Reader.Headers.Reads.{read_byte-Reads, read_raw-Reads}
use memory_pack_cpp.Writer.{append_byte, append_bytes}
use memory_pack_cpp.Writer.Appends.{
  Writes, Writes-then, Writes-nothing, append_byte-Writes, append_bytes-Writes,
}
use memory_pack_cpp.Writer.Headers.{write_raw}
use memory_pack_cpp.Writer.Headers.Writes.{write_raw-Writes}
use memory_pack_cpp.Format.{Lawful, IsSafe, min_encoded_size, container_min_size}
use memory_pack_cpp.Dotnet.Guid.{Guid}
use memory_pack_cpp.Dotnet.Guid
use memory_pack_cpp.Dotnet.Times.{DateTimeOffset}
use memory_pack_cpp.Dotnet.Formatters.{
  read_each, serialize_guid, deserialize_guid, guid_formatter, date_time_formatter, write_padding,
  serialize_date_time_offset, deserialize_date_time_offset, date_time_offset_formatter,
  decimal_formatter, int128_formatter,
}

read_each-Safe : (n : ℕ) → Safe (read_each n)
unfolding read_each
read_each-Safe zero = Safe-pure []
read_each-Safe (suc n) =
    Safe-bind read_byte-Safe (λ b. Safe-bind (read_each-Safe n) (λ bs. Safe-pure _))

pub guid-IsSafe : IsSafe guid_formatter
unfolding deserialize_guid
guid-IsSafe old = Safe-bind (read_raw-Safe 4) (λ a.
    Safe-bind (read_raw-Safe 2)
      (λ b. Safe-bind (read_raw-Safe 2) (λ c. Safe-bind (read_each-Safe 8) (λ d. Safe-pure _))))

pub date_time-IsSafe : IsSafe date_time_formatter
date_time-IsSafe old = Safe-bind (read_raw-Safe 8) (λ d. Safe-pure _)

pub date_time_offset-IsSafe : IsSafe date_time_offset_formatter
unfolding deserialize_date_time_offset
date_time_offset-IsSafe old =
    Safe-bind (read_raw-Safe 2)
      (λ o. Safe-bind (advance-Safe 6) (λ _. Safe-bind (read_raw-Safe 8) (λ d. Safe-pure _)))

pub decimal-IsSafe : IsSafe decimal_formatter
decimal-IsSafe old = read_each-Safe 16

pub int128-IsSafe : IsSafe int128_formatter
int128-IsSafe old =
    Safe-bind (read_raw-Safe 8) (λ l. Safe-bind (read_raw-Safe 8) (λ h. Safe-pure _))

module _ {levels : ℕ} where
  pub read_each-Reads : (n : ℕ) (bs : List ℕ) → length bs ≡ n → Reads levels (read_each n) bs bs
  unfolding read_each
  read_each-Reads zero [] e = Reads-pure []
  read_each-Reads zero (b ∷ bs) e = absurd (omega arith)
  read_each-Reads (suc n) [] e = absurd (omega arith)
  read_each-Reads (suc n) (b ∷ bs) e = Reads-bind read_byte _ (b ∷ []) bs (read_byte-Reads b) (
      Reads-map {levels = levels} (read_each n) (λ cs. b ∷ cs) bs
        (read_each-Reads n bs (omega arith)))

  pub advance-Reads : (n : ℕ) (wire : List ℕ) → length wire ≡ n → Reads levels (advance n) wire tt
  unfolding advance move
  advance-Reads n wire e r rest ready ahead =
      rw (ensure_bytes-Ready n r wire rest ready ahead (omega arith))
        (ap (λ (k : ℕ). returned tt (record r { pos = r.pos + k })) (omega arith))

-- The 16 bytes of Guid.ToByteArray().
abbrev pub guid_wire : Guid → List ℕ
guid_wire g = to_le 4 g.data1 ++ (to_le 2 g.data2 ++ (to_le 2 g.data3 ++ g.data4))

pub serialize_guid-Writes : (g : Guid) → Writes (serialize_guid g) (guid_wire g)
unfolding serialize_guid
serialize_guid-Writes g =
    Writes-then (write_raw 4 g.data1) _ (to_le 4 g.data1) _ (write_raw-Writes 4 _) (
      Writes-then (write_raw 2 g.data2) _ (to_le 2 g.data2) _ (write_raw-Writes 2 _) (
        Writes-then (write_raw 2 g.data3) (append_bytes g.data4) (to_le 2 g.data3) g.data4
          (write_raw-Writes 2 _) (append_bytes-Writes g.data4)))

-- The formatter of Guid takes the 16 bytes of a Guid off the front of the unread input and gives it
-- back. The reader has no error.
pub deserialize_guid-Reads :
    (levels : ℕ) (old g : Guid)
    → Guid.IsValid g
    → (r : Reader) (rest : List ℕ) → Ready levels r
    → Ahead r (guid_wire g) rest
    → deserialize_guid old r ≡ returned g (advanced (length (guid_wire g)) r)
unfolding deserialize_guid
deserialize_guid-Reads levels old g ok =
    Reads-bind (read_raw 4) _ (to_le 4 g.data1) (to_le 2 g.data2 ++ (to_le 2 g.data3 ++ g.data4))
      (read_raw-Reads 4 g.data1 ok.data1_fits)
      (Reads-bind (read_raw 2) _ (to_le 2 g.data2) (to_le 2 g.data3 ++ g.data4)
        (read_raw-Reads 2 g.data2 ok.data2_fits)
        (Reads-bind (read_raw 2) _ (to_le 2 g.data3) g.data4
          (read_raw-Reads 2 g.data3 ok.data3_fits)
          (Reads-map {levels = levels} (read_each 8)
            (λ d. record { data1 = g.data1; data2 = g.data2; data3 = g.data3; data4 = d }) g.data4
            (read_each-Reads {levels = levels} 8 g.data4 ok.data4_size))))

unfoldable pub guid-Lawful : Lawful guid_formatter
unfolding min_encoded_size container_min_size
guid-Lawful = record {
  wire = guid_wire;
  IsEncodable = Guid.IsValid;
  levels = 0;
  writes = λ g _. serialize_guid-Writes g;
  reads = λ n old g _ ok. deserialize_guid-Reads n old g ok;
  large = λ g _. omega arith;
}

-- The offset, six bytes of padding, and the DateTime.
abbrev pub date_time_offset_wire : DateTimeOffset → List ℕ
date_time_offset_wire v =
    to_le 2 v.offset_minutes ++ (replicate 6 0 ++ to_le 8 v.date_time.date_data)

pub write_padding-Writes : (n : ℕ) → Writes (write_padding n) (replicate n 0)
unfolding write_padding
write_padding-Writes zero = Writes-nothing
write_padding-Writes (suc n) =
    Writes-then (append_byte 0) (write_padding n) (0 ∷ []) (replicate n 0) (append_byte-Writes 0)
      (write_padding-Writes n)

unfoldable pub date_time_offset-Lawful : Lawful date_time_offset_formatter
unfolding min_encoded_size container_min_size serialize_date_time_offset
    deserialize_date_time_offset
date_time_offset-Lawful = record {
  wire = date_time_offset_wire;
  IsEncodable = λ v. (v.offset_minutes < 2 ^ 16) × (v.date_time.date_data < 2 ^ 64);
  levels = 0;
  writes = λ v _.
      Writes-then (write_raw 2 v.offset_minutes) _ (to_le 2 v.offset_minutes) _
        (write_raw-Writes 2 _)
        (Writes-then (write_padding 6) (write_raw 8 v.date_time.date_data) (replicate 6 0) _
          (write_padding-Writes 6) (write_raw-Writes 8 _));
  reads = λ n old v _ h.
      Reads-bind (read_raw 2) _ (to_le 2 v.offset_minutes)
        (replicate 6 0 ++ to_le 8 v.date_time.date_data) (read_raw-Reads 2 v.offset_minutes h.0)
        (Reads-bind (advance 6) _ (replicate 6 0) (to_le 8 v.date_time.date_data)
          (advance-Reads {levels = n} 6 (replicate 6 0) refl)
          (Reads-map {levels = n} (read_raw 8)
            (λ d. record {
              offset_minutes = v.offset_minutes;
              date_time = record { date_data = d };
            })
            (to_le 8 v.date_time.date_data) (read_raw-Reads 8 v.date_time.date_data h.1)));
  large = λ v _. omega arith;
}

unfoldable pub date_time-Lawful : Lawful date_time_formatter
unfolding min_encoded_size container_min_size
date_time-Lawful = record {
  wire = λ v. to_le 8 v.date_data;
  IsEncodable = λ v. v.date_data < 2 ^ 64;
  levels = 0;
  writes = λ v _. write_raw-Writes 8 v.date_data;
  reads = λ n old v _ h.
      Reads-map {levels = n} (read_raw 8) (λ d. record { date_data = d }) (to_le 8 v.date_data)
        (read_raw-Reads 8 v.date_data h);
  large = λ v _. omega arith;
}

unfoldable pub int128-Lawful : Lawful int128_formatter
unfolding min_encoded_size container_min_size
int128-Lawful = record {
  wire = λ v. to_le 8 v.low ++ to_le 8 v.high;
  IsEncodable = λ v. (v.low < 2 ^ 64) × (v.high < 2 ^ 64);
  levels = 0;
  writes = λ v _.
      Writes-then (write_raw 8 v.low) (write_raw 8 v.high) (to_le 8 v.low) (to_le 8 v.high)
        (write_raw-Writes 8 _) (write_raw-Writes 8 _);
  reads = λ n old v _ h.
      Reads-bind (read_raw 8) _ (to_le 8 v.low) (to_le 8 v.high) (read_raw-Reads 8 v.low h.0) (
        Reads-map {levels = n} (read_raw 8) (λ d. record { low = v.low; high = d }) (to_le 8 v.high)
          (read_raw-Reads 8 v.high h.1));
  large = λ v _. omega arith;
}

unfoldable pub decimal-Lawful : Lawful decimal_formatter
unfolding min_encoded_size container_min_size
decimal-Lawful = record {
  wire = λ bits. bits;
  IsEncodable = λ bits. length bits ≡ 16;
  levels = 0;
  writes = λ bits _. append_bytes-Writes bits;
  reads = λ n old bits _ e. read_each-Reads {levels = n} 16 bits e;
  large = λ bits e. omega arith;
}
