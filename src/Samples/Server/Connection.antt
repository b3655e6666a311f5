-- ===== src/Samples/Server/Connection.antt =====
-- samples/CppServer/main.cpp, class Connection: the requests of a client and the answers to them. The
-- socket's `send` and the clock, in microseconds since the Unix epoch at each reading, are
-- parameters; the microseconds are an int64_t with 2^63 added. Log lines are left out.
pub mod Answers
pub mod Calm
pub mod Defined
use memory_pack_cpp.Base.{
  ℕ, zero, suc, ◌+◌, ◌-◌, ◌*◌, ◌/◌, ◌%◌, ◌^◌, ◌≡◌, Bool, true, false, not, List, [], ◌∷◌, ◌++◌,
  length, map, ltb, leb, ◌==◌, ◌&&◌, if◌then◌else◌, Option, none, some,
}
use memory_pack_cpp.Base.Options
use memory_pack_cpp.Outcome.{
  MemoryPackError, Outcome, returned, thrown, fault, Action, pure, ◌>>=◌, ◌>>◌,
}
use memory_pack_cpp.Reader.{ReaderOptions, new_reader}
use memory_pack_cpp.Reader
use memory_pack_cpp.Reader.Headers.{is_negative}
use memory_pack_cpp.Writer.{Writer, Write, vector_writer, clear, written, resize}
use memory_pack_cpp.Writer
use memory_pack_cpp.Format.{Formatter}
use memory_pack_cpp.Packet.{
  PacketFrameParser, Packet, Fed, new_parser, feed, header_size, header_bytes, patch,
}
use memory_pack_cpp.Samples.Server.Packets.{
  echo_request_id, echo_response_id, sum_request_id, sum_response_id, spawn_request_id,
  spawn_response_id, EchoRequest, EchoResponse, SumRequest, SumResponse, Entity, SpawnRequest,
  SpawnResponse, echo_request_formatter, echo_response_formatter, sum_request_formatter,
  sum_response_formatter, spawn_request_formatter, spawn_response_formatter,
}
use memory_pack_cpp.Samples.Server.Sending.{Socket, send_all}

abbrev pub max_body_length : ℕ
max_body_length = 64 * 1024

abbrev pub max_sum_values : ℕ
max_sum_values = 4096

abbrev pub max_spawn_count : ℕ
max_spawn_count = 64

-- memorypack::ReaderOptions MakeReaderLimits()
abbrev pub reader_limits : ReaderOptions
reader_limits = record { max_collection_length = 4096; max_string_length = 4096; max_depth = 8 }

abbrev pub ticks_at_unix_epoch : ℕ
ticks_at_unix_epoch = 621355968000000000

-- int64_t UtcNowTicks(), at a reading of the clock: the bits of the ticks, and `none` where the
-- multiplication or the addition overflows. With 2^63 added to the microseconds, ten times their
-- number has 10 * 2^63 added, and is an int64_t from 9 * 2^63 on and below 11 * 2^63.
unfoldable pub utc_now_ticks : ℕ → Option ℕ
utc_now_ticks micros =
    let product = micros * 10 in
    let ticks = ticks_at_unix_epoch + product in
    if leb (9 * 2 ^ 63) product && ltb product (11 * 2 ^ 63) && ltb ticks (11 * 2 ^ 63)
    then some (ticks % 2 ^ 64)
    else none

-- std::string ToUpperAscii(std::string_view text)
unfoldable pub to_upper_ascii : List ℕ → List ℕ
to_upper_ascii text = map (λ c. if leb 97 c && leb c 122 then c - 97 + 65 else c) text

-- An int32_t, given by its bits, with 2^31 added.
abbrev pub biased32 : ℕ → ℕ
biased32 v = (v + 2 ^ 31) % 2 ^ 32

-- total += value, on an int64_t with 2^63 added; `none` where it overflows.
unfoldable pub add_value : ℕ → ℕ → Option ℕ
add_value total v =
    let sum = total + biased32 v in
    if leb (2 ^ 31) sum && ltb sum (2 ^ 64 + 2 ^ 31) then some (sum - 2 ^ 31) else none

-- for (int32_t value : request.values) total += value;
unfoldable pub add_values : List ℕ → ℕ → Option ℕ
unfolding add_value
add_values [] total = some total
add_values (v ∷ vs) total = Options.◌>>=◌ (add_value total v) (λ t. add_values vs t)

-- count < 0 and count > MAX_SPAWN_COUNT are cut off.
unfoldable pub clamp_count : ℕ → ℕ
clamp_count count =
    if is_negative count then 0 else if ltb max_spawn_count count then max_spawn_count else count

-- floor(log2(k)), with rounds enough for k.
abbrev log2_below : ℕ → ℕ → ℕ
log2_below zero k = 0
log2_below (suc rounds) k = elim (leb 2 k) [ true ↦ suc (log2_below rounds (k / 2)) | false ↦ 0 ]

-- The bits of the float k / 2, which is exact for the small k here.
abbrev pub float_of_halves : ℕ → ℕ
float_of_halves zero = 0
float_of_halves (suc n) =
    let k = suc n in let e = log2_below 24 k in (126 + e) * 2 ^ 23 + (k - 2 ^ e) * 2 ^ (23 - e)

-- std::to_string of a number with at most two digits.
abbrev pub to_string : ℕ → List ℕ
to_string i = if ltb i 10 then (48 + i) ∷ [] else (48 + i / 10) ∷ (48 + i % 10) ∷ []

-- "Entity_"
abbrev pub entity_prefix : List ℕ
entity_prefix = 0x45 ∷ 0x6E ∷ 0x74 ∷ 0x69 ∷ 0x74 ∷ 0x79 ∷ 0x5F ∷ []

-- The entity of round `i`, at { f * 1.5f, f * 2.5f, f * -0.5f }.
unfoldable pub entity : ℕ → Entity
entity i = record {
  id = 1000 + i;
  position = float_of_halves (i * 3) ∷ float_of_halves (i * 5) ∷ (2 ^ 31 + float_of_halves i) ∷ [];
  name = entity_prefix ++ to_string i;
}

-- for (int32_t i = 0; i < count; ++i) response.entities.push_back(...)
unfoldable pub entities_from : ℕ → ℕ → List Entity
unfolding entity
entities_from i zero = []
entities_from i (suc left) = entity i ∷ entities_from (suc i) left

-- class Connection. `writer` appends to the send buffer, which is its vector; `clock_reads` counts the
-- readings of the clock.
pub record Connection : Type 0 where
  pub parser : PacketFrameParser
  pub writer : Writer
  pub socket : Socket
  pub clock_reads : ℕ
  pub alive : Bool

-- Connection(socket_t sock, int id)
abbrev pub new_connection : Bool → Connection
new_connection exceptions = record {
  parser = new_parser max_body_length;
  writer = vector_writer exceptions [];
  socket = record { wire = []; calls = 0 };
  clock_reads = 0;
  alive = true;
}

-- What DecodeBody makes of a read; `none` stands for its false.
abbrev pub decoded_of : {A : Type 0} → Outcome Reader.Reader A → Action Connection (Option A)
decoded_of (returned v r) c = returned (if Reader.failed r then none else some v) c
decoded_of (thrown e r) c = returned none c
decoded_of fault c = fault

-- sendBuffer_.resize(n), behind the writer's back.
unfoldable pub resize_buffer : ℕ → Write
resize_buffer n w = elim w.vec [
  | none ↦ fault
  | some v ↦ returned tt (record w { vec = some (resize n v) })
]

module _ (exceptions : Bool) (send : ℕ → ℕ → ℕ) (clock : ℕ → ℕ) where
  -- bool DecodeBody(std::span<const uint8_t> body, T& out)
  unfoldable pub decode_body : {A : Type 0} → Formatter A → List ℕ → Action Connection (Option A)
  decode_body F body = decoded_of (F.deserialize F.init (new_reader exceptions reader_limits body))

  -- The patching of the header, and SendAll.
  abbrev pub send_buffer : ℕ → Writer → Action Connection Bool
  send_buffer id w c =
      let full = written w in
      let body_length = (length full - header_size) % 2 ^ 32 in
      let packet = patch full 0 (header_bytes id body_length) in
      let (ok, socket) = send_all send packet c.socket in
      returned ok (record c { writer = record w { vec = some packet }; socket = socket })

  abbrev pub sent_of : ℕ → Outcome Writer (Unit {0}) → Action Connection Bool
  sent_of id (returned _ w) c =
      if Writer.failed w then returned false (record c { writer = w }) else send_buffer id w c
  sent_of id (thrown e w) c = thrown e (record c { writer = w })
  sent_of id fault c = fault

  -- bool SendPacket(PacketId id, const T& body)
  unfoldable pub send_packet : {A : Type 0} → Formatter A → ℕ → A → Action Connection Bool
  unfolding resize_buffer
  send_packet F id body c =
      sent_of id ((clear >> (resize_buffer header_size >> F.serialize body)) c.writer) c

  -- UtcNowTicks() reads the clock.
  unfoldable pub read_clock : Action Connection ℕ
  unfolding utc_now_ticks
  read_clock c = elim (utc_now_ticks (clock c.clock_reads)) [
    | none ↦ fault
    | some ticks ↦ returned ticks (record c { clock_reads = suc c.clock_reads })
  ]

  abbrev pub answer_echo : Option EchoRequest → Action Connection Bool
  answer_echo none = pure false
  answer_echo (some request) = do
    now ← read_clock
    send_packet echo_response_formatter echo_response_id
        (record { seq = request.seq; text = to_upper_ascii request.text; server_time_ticks = now })

  -- bool HandleEcho(std::span<const uint8_t> body)
  unfoldable pub handle_echo : List ℕ → Action Connection Bool
  unfolding decode_body
  handle_echo body = decode_body echo_request_formatter body >>= answer_echo

  abbrev pub send_total : Option ℕ → Action Connection Bool
  send_total none c = fault
  send_total (some total) c =
      send_packet sum_response_formatter sum_response_id
        (record { total = (total + 2 ^ 63) % 2 ^ 64 }) c

  abbrev pub answer_sum : Option SumRequest → Action Connection Bool
  answer_sum none = pure false
  answer_sum (some request) =
      if ltb max_sum_values (length request.values)
      then pure false
      else send_total (add_values request.values (2 ^ 63))

  -- bool HandleSum(std::span<const uint8_t> body)
  unfoldable pub handle_sum : List ℕ → Action Connection Bool
  unfolding decode_body
  handle_sum body = decode_body sum_request_formatter body >>= answer_sum

  abbrev pub answer_spawn : Option SpawnRequest → Action Connection Bool
  answer_spawn none = pure false
  answer_spawn (some request) =
      send_packet spawn_response_formatter spawn_response_id
        (record { entities = entities_from 0 (clamp_count request.count) })

  -- bool HandleSpawn(std::span<const uint8_t> body)
  unfoldable pub handle_spawn : List ℕ → Action Connection Bool
  unfolding decode_body
  handle_spawn body = decode_body spawn_request_formatter body >>= answer_spawn

  -- bool HandlePacket(uint16_t rawId, std::span<const uint8_t> body)
  unfoldable pub handle_packet : Packet → Action Connection Bool
  unfolding handle_echo handle_sum handle_spawn
  handle_packet packet =
      if packet.0 == echo_request_id
      then handle_echo packet.1
      else if packet.0 == sum_request_id
      then handle_sum packet.1
      else if packet.0 == spawn_request_id
      then handle_spawn packet.1
      else pure false

  unfoldable pub close_unless : Bool → Action Connection (Unit {0})
  close_unless ok c = returned tt (if ok then c else record c { alive = false })

  -- The callback of Feed.
  unfoldable pub on_packet : Packet → Action Connection (Unit {0})
  unfolding handle_packet close_unless
  on_packet packet c = elim c.alive [
    | false ↦ returned tt c
    | true ↦ (handle_packet packet >>= close_unless) c
  ]

  -- The calls of the callback in the loop of Feed, for the packets that it is called with. At each call
  -- the parser `p` of the loop stands in front of the packet, where an exception leaves it, and the
  -- loop moves it past the packet behind the call.
  unfoldable pub handle_packets : PacketFrameParser → List Packet → Action Connection (Unit {0})
  unfolding on_packet
  handle_packets p [] c = returned tt c
  handle_packets p (packet ∷ packets) c =
      let moved = record p { consumed = p.consumed + (header_size + length packet.1) } in
      (on_packet packet >> handle_packets moved packets) (record c { parser = p })

  -- Feed returns, and has left its parser.
  abbrev pub leave_feed : Fed → Action Connection Bool
  leave_feed fed c = returned fed.accepted (record c { parser = fed.parser })

  -- One round of the loop of Run, with the chunk that `recv` gave; false where the loop is left.
  unfoldable pub receive : List ℕ → Action Connection Bool
  unfolding handle_packets
  receive chunk c = elim (feed c.parser chunk) [
    | none ↦ fault
    | some fed ↦
        let filled = record c.parser { buffer = c.parser.buffer ++ chunk } in
        (handle_packets filled fed.packets >> leave_feed fed) c
  ]

  -- void Run(), with the chunks that `recv` gives before it fails or ends.
  unfoldable pub run : List (List ℕ) → Action Connection (Unit {0})
  unfolding receive
  run [] c = returned tt c
  run (chunk ∷ chunks) c = elim c.alive [
    | false ↦ returned tt c
    | true ↦ (receive chunk >>= λ ok. if ok then run chunks else pure tt) c
  ]
