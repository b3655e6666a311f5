-- ===== src/Packet.antt =====
-- include/memorypack/packet.hpp: packet headers, writing a packet, and the reassembly of packets
-- from a byte stream.
pub mod Stream
pub mod Feed
pub mod Written
pub mod Delivered
use memory_pack_cpp.Base.{
  ℕ, zero, suc, ◌+◌, ◌-◌, ◌*◌, ◌≤◌, ◌<◌, ◌^◌, ◌%◌, ◌≡◌, Bool, true, false, List, [], ◌∷◌, ◌++◌,
  length, take, drop, replicate, ltb, leb, ◌==◌, ◌||◌, if◌then◌else◌, to_le, from_le, Option, none,
  some,
}
use memory_pack_cpp.Outcome.{Outcome, returned, thrown, fault, MemoryPackError}
use memory_pack_cpp.Reader.Headers.{is_negative}
use memory_pack_cpp.Writer.{Writer, vector_writer, written}
use memory_pack_cpp.Format.{Formatter}

-- DefaultPacketHeaderPolicy::HeaderSize
abbrev pub header_size : ℕ
header_size = 6

-- static void Write(uint8_t* dst, uint16_t id, int32_t bodyLength): the six bytes it stores.
abbrev pub header_bytes : ℕ → ℕ → List ℕ
header_bytes id body_length = to_le 2 id ++ to_le 4 body_length

-- struct PacketHeader
pub record PacketHeader : Type 0 where
  pub id : ℕ
  pub body_length : ℕ

-- static void Read(const uint8_t* src, uint16_t& id, int32_t& bodyLength)
unfoldable pub read_header : List ℕ → PacketHeader
read_header src = record { id = from_le (take 2 src); body_length = from_le (take 4 (drop 2 src)) }

-- std::optional<PacketHeader> PeekPacketHeader(std::span<const uint8_t> data)
unfoldable pub peek_packet_header : List ℕ → Option PacketHeader
unfolding read_header
peek_packet_header input = if ltb (length input) header_size then none else some (read_header input)

-- The bytes at `at` replaced by `src`.
abbrev pub patch : List ℕ → ℕ → List ℕ → List ℕ
patch buffer at src = take at buffer ++ (src ++ drop (at + length src) buffer)

-- void WritePacket(std::vector<uint8_t>& out, uint16_t id, const T& body): the vector afterwards.
unfoldable pub write_packet :
    {A : Type 0} → Bool → Formatter A → List ℕ → ℕ → A → Outcome Writer (List ℕ)
write_packet exceptions F out id body =
    let header_at = length out in
    let reserved = out ++ replicate header_size 0 in
    elim (F.serialize body (vector_writer exceptions reserved)) [
      | returned _ w ↦
          let full = written w in
          let body_length = length full - header_at - header_size in
          returned (patch full header_at (header_bytes id (body_length % 2 ^ 32))) w
      | thrown e w ↦ thrown e w
      | fault ↦ fault
    ]

-- std::vector<uint8_t> MakePacket(uint16_t id, const T& body)
abbrev pub make_packet : {A : Type 0} → Bool → Formatter A → ℕ → A → Outcome Writer (List ℕ)
make_packet exceptions F id body = write_packet exceptions F [] id body

-- class BasicPacketFrameParser
pub record PacketFrameParser : Type 0 where
  pub buffer : List ℕ
  pub consumed : ℕ
  pub max_body_length : ℕ

abbrev pub new_parser : ℕ → PacketFrameParser
new_parser max = record { buffer = []; consumed = 0; max_body_length = max }

abbrev pub Packet : Type 0
Packet = ℕ × List ℕ

-- size_t Buffered() const
abbrev pub buffered : PacketFrameParser → ℕ
buffered p = length p.buffer - p.consumed

-- void Reset()
unfoldable pub reset : PacketFrameParser → PacketFrameParser
reset p = record p { buffer = []; consumed = 0 }

-- void Compact()
unfoldable pub compact : PacketFrameParser → PacketFrameParser
compact p =
    if p.consumed == 0
    then p
    else if p.consumed == length p.buffer
    then record p { buffer = []; consumed = 0 }
    else if ltb 4096 p.consumed || leb (length p.buffer) (p.consumed * 2)
    then record p { buffer = drop p.consumed p.buffer; consumed = 0 }
    else p

-- How the loop of Feed ends: the parser, and the packets handed to the callback. `out_of_fuel`
-- has no counterpart in the program.
pub data LoopEnd : Type 0 where
  waits : PacketFrameParser → List Packet → LoopEnd
  violates : PacketFrameParser → List Packet → LoopEnd
  out_of_fuel : LoopEnd

-- The loop of Feed. Each round that goes on consumes a header at least.
unfoldable pub feed_loop : ℕ → PacketFrameParser → List Packet → LoopEnd
unfolding read_header reset
feed_loop zero p seen = out_of_fuel
feed_loop (suc fuel) p seen =
    let available = length p.buffer - p.consumed in
    let header = read_header (drop p.consumed p.buffer) in
    let frame_size = header_size + header.body_length in
    let body = take header.body_length (drop (p.consumed + header_size) p.buffer) in
    let next =
      feed_loop fuel (record p { consumed = p.consumed + frame_size })
        (seen ++ ((header.id, body) ∷ [])) in
    if ltb available header_size
    then waits p seen
    else if is_negative header.body_length || ltb p.max_body_length header.body_length
    then violates (reset p) seen
    else if ltb available frame_size
    then waits p seen
    else next

-- What a call of Feed gives: its result, the packets it handed out, and the parser.
pub record Fed : Type 0 where
  pub accepted : Bool
  pub packets : List Packet
  pub parser : PacketFrameParser

abbrev pub fed_of : LoopEnd → Option Fed
fed_of (waits p seen) = some (record { accepted = true; packets = seen; parser = compact p })
fed_of (violates p seen) = some (record { accepted = false; packets = seen; parser = p })
fed_of out_of_fuel = none

-- bool Feed(std::span<const uint8_t> bytes, OnPacket&& onPacket)
unfoldable pub feed : PacketFrameParser → List ℕ → Option Fed
unfolding compact feed_loop
feed p bytes =
    let buffer = p.buffer ++ bytes in
    fed_of (feed_loop (suc (length buffer)) (record p { buffer = buffer }) [])
