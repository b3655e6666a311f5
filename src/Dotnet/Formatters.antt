-- ===== src/Dotnet/Formatters.antt =====
-- include/memorypack/dotnet.hpp: the formatters of the .NET value types. A signed or floating member
-- is its bit pattern.
pub mod Laws
use memory_pack_cpp.Base.{ℕ, zero, suc, List, [], ◌∷◌, ◌++◌, length, replicate}
use memory_pack_cpp.Outcome.{pure, ◌>>=◌, ◌>>◌}
use memory_pack_cpp.Reader.{Read, advance}
use memory_pack_cpp.Reader.Headers.{read_byte, read_raw}
use memory_pack_cpp.Writer.{Write, append_byte, append_bytes}
use memory_pack_cpp.Writer.Headers.{write_raw}
use memory_pack_cpp.Format.{Formatter, object, unmanaged}
use memory_pack_cpp.Format.Vectors.{read_block}
use memory_pack_cpp.Dotnet.Guid.{Guid}
use memory_pack_cpp.Dotnet.Times.{DateTime, TimeSpan, DateTimeOffset}

-- for (auto& b : bytes) b = r.ReadUInt8();
unfoldable pub read_each : ℕ → Read (List ℕ)
read_each zero = pure []
read_each (suc left) = do b ← read_byte; bs ← read_each left; pure (b ∷ bs)

-- MemoryPackFormatter<Guid>
unfoldable pub serialize_guid : Guid → Write
serialize_guid v = do
  write_raw 4 v.data1
  write_raw 2 v.data2
  write_raw 2 v.data3
  append_bytes v.data4

unfoldable pub deserialize_guid : Guid → Read Guid
unfolding read_each
deserialize_guid old = do
  d1 ← read_raw 4
  d2 ← read_raw 2
  d3 ← read_raw 2
  d4 ← read_each 8
  pure (record { data1 = d1; data2 = d2; data3 = d3; data4 = d4 })

abbrev pub guid_formatter : Formatter Guid
guid_formatter = record {
  kind = object;
  init = record { data1 = 0; data2 = 0; data3 = 0; data4 = replicate 8 0 };
  serialize = serialize_guid;
  deserialize = deserialize_guid;
}

-- MemoryPackFormatter<DateTime>
abbrev pub date_time_formatter : Formatter DateTime
date_time_formatter = record {
  kind = object;
  init = record { date_data = 0 };
  serialize = λ v. write_raw 8 v.date_data;
  deserialize = λ _. read_raw 8 >>= λ d. pure (record { date_data = d });
}

-- MemoryPackFormatter<TimeSpan>
abbrev pub time_span_formatter : Formatter TimeSpan
time_span_formatter = record {
  kind = object;
  init = record { ticks = 0 };
  serialize = λ v. write_raw 8 v.ticks;
  deserialize = λ _. read_raw 8 >>= λ t. pure (record { ticks = t });
}

-- for (int i = 0; i < 6; ++i) w.WriteUInt8(0);
unfoldable pub write_padding : ℕ → Write
write_padding zero = pure tt
write_padding (suc left) = do append_byte 0; write_padding left

-- MemoryPackFormatter<DateTimeOffset>
unfoldable pub serialize_date_time_offset : DateTimeOffset → Write
unfolding write_padding
serialize_date_time_offset v = do
  write_raw 2 v.offset_minutes
  write_padding 6
  write_raw 8 v.date_time.date_data

unfoldable pub deserialize_date_time_offset : DateTimeOffset → Read DateTimeOffset
deserialize_date_time_offset old = do
  offset ← read_raw 2
  advance 6
  d ← read_raw 8
  pure (record { offset_minutes = offset; date_time = record { date_data = d } })

abbrev pub date_time_offset_formatter : Formatter DateTimeOffset
date_time_offset_formatter = record {
  kind = object;
  init = record { offset_minutes = 0; date_time = record { date_data = 0 } };
  serialize = serialize_date_time_offset;
  deserialize = deserialize_date_time_offset;
}

-- MemoryPackFormatter<Decimal>, whose 16 bytes are `bits`.
abbrev pub decimal_formatter : Formatter (List ℕ)
decimal_formatter = record {
  kind = object;
  init = replicate 16 0;
  serialize = append_bytes;
  deserialize = λ _. read_each 16;
}

-- MemoryPackFormatter<Half>, for its bits.
abbrev pub half_formatter : Formatter ℕ
half_formatter = record {
  kind = object;
  init = 0;
  serialize = write_raw 2;
  deserialize = λ _. read_raw 2;
}

-- struct Int128 and struct UInt128
pub record Int128 : Type 0 where
  pub low : ℕ
  pub high : ℕ

-- MemoryPackFormatter<Int128> and MemoryPackFormatter<UInt128>
abbrev pub int128_formatter : Formatter Int128
int128_formatter = record {
  kind = object;
  init = record { low = 0; high = 0 };
  serialize = λ v. write_raw 8 v.low >> write_raw 8 v.high;
  deserialize =
      λ _. read_raw 8 >>= λ low. read_raw 8 >>= λ high. pure (record { low = low; high = high });
}
