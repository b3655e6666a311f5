-- ===== src/Samples/Server/Connection/Calm.antt =====
-- samples/CppServer/main.cpp, class Connection: each handler of a packet ends, by a return or an
-- exception, and keeps the connection up.
use memory_pack_cpp.Base.{
  ℕ, ◌≤◌, ◌^◌, ◌≡◌, refl, Bool, true, false, List, length, Option, none, some, arith, ltb, ◌==◌,
  if◌then◌else◌, ltb→le, ◌+◌, ◌*◌, ◌%◌, ◌<◌, le→leb, lt→ltb,
}
use memory_pack_cpp.Outcome.{
  Outcome, Action, pure, ◌>>=◌, Ensures, returns, throws, Ensures-bind, Ensures-if,
}
use memory_pack_cpp.Reader.{Reader, new_reader}
use memory_pack_cpp.Writer.{Writer, clear}
use memory_pack_cpp.Writer
use memory_pack_cpp.Writer.Steady.{HasVector, Steady, Steady-then}
use memory_pack_cpp.Format.{Formatter, IsSafe}
use memory_pack_cpp.Format.Steady.{IsSteady}
use memory_pack_cpp.Packet.{Packet, header_size}
use memory_pack_cpp.Samples.Server.Packets.{
  EchoRequest, SumRequest, SpawnRequest, echo_request_id, sum_request_id, spawn_request_id,
  echo_request_formatter, echo_response_formatter, sum_request_formatter, sum_response_formatter,
  spawn_request_formatter, spawn_response_formatter,
}
use memory_pack_cpp.Samples.Server.Packets.Laws.{
  echo_request-IsSafe, sum_request-IsSafe, spawn_request-IsSafe, echo_response-IsSteady,
  sum_response-IsSteady, spawn_response-IsSteady,
}
use memory_pack_cpp.Samples.Server.Connection.{
  max_body_length, max_sum_values, reader_limits, add_values, resize_buffer, Connection, decoded_of,
  decode_body, sent_of, send_packet, read_clock, answer_echo, handle_echo, send_total, answer_sum,
  handle_sum, answer_spawn, handle_spawn, handle_packet, close_unless, utc_now_ticks,
  ticks_at_unix_epoch,
}
use memory_pack_cpp.Samples.Server.Connection.Answers.{add_values-total}

-- The parser's position is inside its buffer and its limit is the server's, and the writer appends
-- to the send buffer.
pub record IsUp (c : Connection) : Type 0 where
  pub inside : c.parser.consumed ≤ length c.parser.buffer
  pub limit : c.parser.max_body_length ≡ max_body_length
  pub vector : HasVector c.writer

-- Each time that the clock shows is an int64_t of ticks, as those of the years 1 to 9999 are.
abbrev pub TicksFit : (ℕ → ℕ) → Type 0
TicksFit clock =
    (k : ℕ) → (9 * 2 ^ 63 ≤ clock k * 10) × (clock k * 10 + ticks_at_unix_epoch < 11 * 2 ^ 63)

-- A step that ends, by a return or an exception, and keeps the connection up.
abbrev pub Calm : {A : Type 0} → Action Connection A → Type 0
Calm m = (c : Connection) → IsUp c → Ensures (λ _ c'. IsUp c') IsUp (m c)

pub Calm-bind :
    {A B : Type 0} (m : Action Connection A) (f : A → Action Connection B)
    → Calm m
    → ((a : A) → Calm (f a))
    → Calm (m >>= f)
Calm-bind m f h k c up = Ensures-bind (h c up) (λ a s q. k a s q)

pub Calm-pure : {A : Type 0} (a : A) → Calm (pure a)
Calm-pure a c up = returns up

pub Calm-if :
    {A : Type 0} (b : Bool) {m n : Action Connection A}
    → (b ≡ true → Calm m)
    → (b ≡ false → Calm n)
    → Calm (if b then m else n)
Calm-if true h k = h refl
Calm-if false h k = k refl

pub Ensures-alive :
    {A : Type 0} (alive : Bool) {x y : Outcome Connection A}
    → Ensures (λ _ c. IsUp c) IsUp x
    → Ensures (λ _ c. IsUp c) IsUp y
    → Ensures (λ _ c. IsUp c) IsUp (elim alive [ false ↦ x | true ↦ y ])
Ensures-alive false h k = h
Ensures-alive true h k = k

with_writer : (c : Connection) (w : Writer) → IsUp c → HasVector w → IsUp (record c { writer = w })
with_writer c w up v = record { inside = up.inside; limit = up.limit; vector = v }

clear-Steady : Steady clear
unfolding clear
clear-Steady w (v, e) = rw e (returns (_, refl))

resize_buffer-Steady : (n : ℕ) → Steady (resize_buffer n)
unfolding resize_buffer
resize_buffer-Steady n w (v, e) = rw e (returns (_, refl))

decoded_of-Ends :
    {A : Type 0} {Q : A → Reader → Type 0} {T : Reader → Type 0} {o : Outcome Reader A}
    (c : Connection)
    → IsUp c
    → Ensures Q T o
    → Ensures (λ _ c'. IsUp c') IsUp (decoded_of o c)
decoded_of-Ends c up (returns q) = returns up
decoded_of-Ends c up (throws t) = returns up

utc_now_ticks-some :
    (micros : ℕ)
    → (9 * 2 ^ 63 ≤ micros * 10) × (micros * 10 + ticks_at_unix_epoch < 11 * 2 ^ 63)
    → (ticks : ℕ) × (utc_now_ticks micros ≡ some ticks)
unfolding utc_now_ticks
utc_now_ticks-some micros (low, high) = (
  (ticks_at_unix_epoch + micros * 10) % 2 ^ 64,
  rw
      (
        le→leb (9 * 2 ^ 63) (micros * 10) low,
        lt→ltb (micros * 10) (11 * 2 ^ 63) (omega arith),
        lt→ltb (ticks_at_unix_epoch + micros * 10) (11 * 2 ^ 63) (omega arith),
      )
      refl,
)

module _ (exceptions : Bool) (send : ℕ → ℕ → ℕ) (clock : ℕ → ℕ) where
  decode_body-Calm :
      {A : Type 0} (F : Formatter A) (body : List ℕ)
      → IsSafe F
      → length body ≤ max_body_length
      → Calm (decode_body exceptions send clock F body)
  unfolding decode_body
  decode_body-Calm F body safe short c up = decoded_of-Ends c up (
      safe F.init (new_reader exceptions reader_limits body)
        (record { in_bounds = omega arith; fits = omega arith }))

  sent_of-Ends :
      (id : ℕ) (c : Connection) {o : Outcome Writer (Unit {0})}
      → IsUp c
      → Ensures (λ _ w. HasVector w) HasVector o
      → Ensures (λ _ c'. IsUp c') IsUp (sent_of exceptions send clock id o c)
  sent_of-Ends id c up (returns {s = w} v) =
      Ensures-if (Writer.failed w) (λ _. returns (with_writer c w up v))
        (λ _. returns (record { inside = up.inside; limit = up.limit; vector = (_, refl) }))
  sent_of-Ends id c up (throws {s = w} v) = throws (with_writer c w up v)

  send_packet-Calm :
      {A : Type 0} (F : Formatter A) (id : ℕ) (body : A)
      → IsSteady F
      → Calm (send_packet exceptions send clock F id body)
  unfolding send_packet
  send_packet-Calm F id body h c up = sent_of-Ends id c up (
      Steady-then clear _ clear-Steady
        (Steady-then (resize_buffer header_size) (F.serialize body)
          (resize_buffer-Steady header_size) (h body))
        c.writer up.vector)

  read_clock-Calm : TicksFit clock → Calm (read_clock exceptions send clock)
  unfolding read_clock
  read_clock-Calm fit c up =
      let (ticks, e) = utc_now_ticks-some (clock c.clock_reads) (fit c.clock_reads) in
      rw (read_clock, e)
        (returns (record { inside = up.inside; limit = up.limit; vector = up.vector }))

  answer_echo-Calm :
      TicksFit clock
      → (request : Option EchoRequest) → Calm (answer_echo exceptions send clock request)
  answer_echo-Calm fit none = Calm-pure false
  answer_echo-Calm fit (some request) =
      Calm-bind (read_clock exceptions send clock) _ (read_clock-Calm fit)
        (λ now. send_packet-Calm echo_response_formatter _ _ echo_response-IsSteady)

  send_total-Calm :
      (values : List ℕ)
      → length values ≤ max_sum_values
      → Calm (send_total exceptions send clock (add_values values (2 ^ 63)))
  send_total-Calm values few =
      let (total, e, _) = add_values-total values few in
      rw e (send_packet-Calm sum_response_formatter _ _ sum_response-IsSteady)

  answer_sum-Calm : (request : Option SumRequest) → Calm (answer_sum exceptions send clock request)
  answer_sum-Calm none = Calm-pure false
  answer_sum-Calm (some request) =
      Calm-if (ltb max_sum_values (length request.values)) (λ _. Calm-pure false)
        (λ few. send_total-Calm request.values (ltb→le _ _ few))

  answer_spawn-Calm :
      (request : Option SpawnRequest) → Calm (answer_spawn exceptions send clock request)
  answer_spawn-Calm none = Calm-pure false
  answer_spawn-Calm (some request) =
      send_packet-Calm spawn_response_formatter _ _ spawn_response-IsSteady

  pub handle_packet-Calm :
      TicksFit clock
      → (packet : Packet) → length packet.1 ≤ max_body_length
      → Calm (handle_packet exceptions send clock packet)
  unfolding handle_packet handle_echo handle_sum handle_spawn
  handle_packet-Calm fit packet short =
      Calm-if (packet.0 == echo_request_id)
        (λ _.
          Calm-bind _ _ (decode_body-Calm echo_request_formatter packet.1 echo_request-IsSafe short)
            (answer_echo-Calm fit))
        λ _.
          Calm-if (packet.0 == sum_request_id)
            (λ _.
              Calm-bind _ _
                (decode_body-Calm sum_request_formatter packet.1 sum_request-IsSafe short)
                answer_sum-Calm)
            λ _.
              Calm-if (packet.0 == spawn_request_id)
                (λ _.
                  Calm-bind _ _
                    (decode_body-Calm spawn_request_formatter packet.1 spawn_request-IsSafe short)
                    answer_spawn-Calm)
                λ _. Calm-pure false

  pub close_unless-Calm : (ok : Bool) → Calm (close_unless exceptions send clock ok)
  unfolding close_unless
  close_unless-Calm true c up = returns up
  close_unless-Calm false c up =
      returns (record { inside = up.inside; limit = up.limit; vector = up.vector })
