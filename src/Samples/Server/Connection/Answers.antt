-- ===== src/Samples/Server/Connection/Answers.antt =====
-- samples/CppServer/main.cpp, class Connection: what the server answers to requests that decode.
use memory_pack_cpp.Base.{
  ℕ, suc, ◌+◌, ◌-◌, ◌*◌, ◌^◌, ◌%◌, ◌≤◌, ◌<◌, ◌≡◌, ◌∙◌, refl, ap, Bool, false, List, [], ◌∷◌, ◌++◌,
  length, some, arith, replicate, le→leb, lt→ltb, le→ltb,
}
use memory_pack_cpp.Outcome.{no_error, is_error, Outcome, returned, ◌>>◌}
use memory_pack_cpp.Writer.{Writer, clear, written}
use memory_pack_cpp.Writer.Appends.{IsValid}
use memory_pack_cpp.Writer.Steady.{HasVector}
use memory_pack_cpp.Format.{Formatter, Lawful}
use memory_pack_cpp.Packet.{header_size, header_bytes, patch}
use memory_pack_cpp.Packet.Written.{packet_wire, patch-header}
use memory_pack_cpp.Samples.Server.Sending.{Socket, send_all}
use memory_pack_cpp.Samples.Server.Connection.{
  biased32, add_value, add_values, resize_buffer, sent_of, Connection, send_packet, max_sum_values,
  utc_now_ticks, to_upper_ascii, decode_body, handle_echo, handle_sum, read_clock,
}
use memory_pack_cpp.Samples.Server.Packets.{
  EchoRequest, EchoResponse, SumRequest, SumResponse, echo_request_formatter,
  echo_response_formatter, sum_request_formatter, sum_response_formatter, echo_response_id,
  sum_response_id,
}
use memory_pack_cpp.Samples.Server.Packets.Laws.{echo_response_laws, sum_response_laws}
use memory_pack_cpp.Format.Objects.Laws.{object-Lawful}
use memory_pack_cpp.Format.Primitives.{number-Lawful}

-- The sum of the values with 2^31 added to each.
abbrev pub biased_sum : List ℕ → ℕ
biased_sum [] = 0
biased_sum (v ∷ vs) = biased32 v + biased_sum vs

add_value-some :
    (t v : ℕ) → 2 ^ 31 ≤ t → t + 2 ^ 31 ≤ 2 ^ 64 → add_value t v ≡ some (t + biased32 v - 2 ^ 31)
unfolding add_value
add_value-some t v low high =
    let b = biased32 v in
    let small : b < 2 ^ 32 = omega arith in
    rw (le→leb (2 ^ 31) (t + b) (omega arith), lt→ltb (t + b) (2 ^ 64 + 2 ^ 31) (omega arith)) refl

-- A running total that has 2^31 of room on both sides for each of the values.
add_values-some :
    (vs : List ℕ) (t : ℕ)
    → length vs * 2 ^ 31 ≤ t
    → t + length vs * 2 ^ 31 ≤ 2 ^ 64
    → (total : ℕ) × (add_values vs t ≡ some total)
      × (total + length vs * 2 ^ 31 ≡ t + biased_sum vs)
unfolding add_values
add_values-some [] t low high = (t, refl, omega arith)
add_values-some (v ∷ vs) t low high =
    let b = biased32 v in
    let small : b < 2 ^ 32 = omega arith in
    let (total, e, s) = add_values-some vs (t + b - 2 ^ 31) (omega arith) (omega arith) in
    (total, rw (add_value-some t v (omega arith) (omega arith)) e, omega arith)

-- Adding up at most 4096 values of an int32_t, which is what the server allows, does not overflow the
-- int64_t total and gives their sum. The total counts from 2^63, and each value in `biased_sum` from
-- 2^31.
pub add_values-total :
    (values : List ℕ)
    → length values ≤ max_sum_values
    → (total : ℕ) × (add_values values (2 ^ 63) ≡ some total)
      × (total + length values * 2 ^ 31 ≡ 2 ^ 63 + biased_sum values)
add_values-total values few = add_values-some values (2 ^ 63) (omega arith) (omega arith)

-- The bytes that the header is patched into.
patched :
    (id : ℕ) (wire full : List ℕ)
    → full ≡ replicate header_size 0 ++ wire
    → length wire < 2 ^ 31
    → patch full 0 (header_bytes id ((length full - header_size) % 2 ^ 32))
      ≡ header_bytes id (length wire) ++ wire
patched id wire full e small =
    let whole : length full - header_size ≡ length full - 0 - header_size = omega arith in
    ap (λ (n : ℕ). patch full 0 (header_bytes id (n % 2 ^ 32))) whole
    ∙ patch-header [] wire full id e small

module _ (exceptions : Bool) (send : ℕ → ℕ → ℕ) (clock : ℕ → ℕ) where
  module _ {A : Type 0} (F : Formatter A) (L : Lawful F) where
    sent_of-clean :
        (id : ℕ) (body : A) (c : Connection) (w : Writer)
        → w.error ≡ no_error
        → written w ≡ replicate header_size 0 ++ L.wire body
        → length (L.wire body) < 2 ^ 31
        → (w' : Writer) × (sent_of exceptions send clock id (returned tt w) c
            ≡ returned (send_all send (packet_wire exceptions F L id body) c.socket).0 (record c {
              writer = w';
              socket = (send_all send (packet_wire exceptions F L id body) c.socket).1;
            }))
    sent_of-clean id body c w clean full small =
        let packet = packet_wire exceptions F L id body in
        let fine : is_error w.error ≡ false = ap is_error clean in
        let leave : List ℕ → Outcome Connection Bool = λ bytes.
          returned (send_all send bytes c.socket).0 (record c {
            writer = record w { vec = some bytes };
            socket = (send_all send bytes c.socket).1;
          }) in
        (
          record w { vec = some packet },
          rw fine (ap leave (patched id (L.wire body) (written w) full small)),
        )

    -- `SendPacket` hands to `SendAll` one packet, the header with the exact length of the body and the
    -- body's encoding, whatever the send buffer held and whatever error the writer had recorded. It
    -- returns what `SendAll` returns. The writer appends to the send buffer, and the body's encoding
    -- is shorter than 2^31 bytes.
    pub send_packet-wire :
        (id : ℕ) (body : A) (c : Connection)
        → HasVector c.writer
        → IsValid c.writer
        → L.IsEncodable body
        → length (L.wire body) < 2 ^ 31
        → (w : Writer) × (send_packet exceptions send clock F id body c
            ≡ returned (send_all send (packet_wire exceptions F L id body) c.socket).0 (record c {
              writer = w;
              socket = (send_all send (packet_wire exceptions F L id body) c.socket).1;
            }))
    unfolding send_packet clear resize_buffer written
    send_packet-wire id body c (v, e) ok h small =
        let start : Writer = record c.writer { vec = some (replicate 6 0); error = no_error } in
        let (w, ew, p) =
          L.writes body h start (record { owned_fits = ok.owned_fits; fixed_fits = ok.fixed_fits })
            (omega arith) in
        let (w', e') = sent_of-clean id body c w p.same_error p.appended small in
        let wrote : (clear >> (resize_buffer header_size >> F.serialize body)) c.writer
            ≡ returned tt w =
          rw e ew in
        (
          w',
          ap (λ (o : Outcome Writer (Unit {0})). sent_of exceptions send clock id o c) wrote ∙ e',
        )

  -- How a handler ends that has sent a packet.
  abbrev pub sent_packet : Bool × Socket → Connection → Outcome Connection Bool
  sent_packet r c = returned r.0 (record c { socket = r.1 })

  abbrev pub echo_answer : EchoRequest → ℕ → EchoResponse
  echo_answer request now = record {
    seq = request.seq;
    text = to_upper_ascii request.text;
    server_time_ticks = now;
  }

  -- The answer to an EchoRequest that decodes is one packet 202 with the request's number, its text
  -- in upper case and the clock's time, which fits an int64_t of ticks; `HandleEcho` returns what the sending of it returns. The
  -- response has an encoding of less than 2^31 bytes.
  pub handle_echo-answer :
      (body : List ℕ) (request : EchoRequest) (now : ℕ) (c : Connection)
      → HasVector c.writer
      → IsValid c.writer
      → decode_body exceptions send clock echo_request_formatter body c ≡ returned (some request) c
      → utc_now_ticks (clock c.clock_reads) ≡ some now
      → echo_response_laws.IsEncodable (echo_answer request now)
      → length (echo_response_laws.wire (echo_answer request now)) < 2 ^ 31
      → (w : Writer) × (handle_echo exceptions send clock body c
          ≡ sent_packet
              (send_all send
                (packet_wire exceptions echo_response_formatter echo_response_laws echo_response_id
                  (echo_answer request now))
                c.socket)
              (record c { clock_reads = suc c.clock_reads; writer = w }))
  unfolding handle_echo read_clock
  handle_echo-answer body request now c vec ok decoded time h small =
      let (w, e) =
        send_packet-wire echo_response_formatter echo_response_laws echo_response_id
          (echo_answer request now) (record c { clock_reads = suc c.clock_reads }) vec ok h small in
      (w, rw (decoded, read_clock, time) e)

  -- The answer to a SumRequest that decodes, with at most 4096 values, is one packet 204 with the sum
  -- of the values as an int64_t, given by its bits; `HandleSum` returns what the sending of it
  -- returns.
  pub handle_sum-answer :
      (body : List ℕ) (request : SumRequest) (c : Connection)
      → HasVector c.writer
      → IsValid c.writer
      → decode_body exceptions send clock sum_request_formatter body c ≡ returned (some request) c
      → length request.values ≤ max_sum_values
      → (total : ℕ) × (w : Writer) × (total + length request.values * 2 ^ 31
          ≡ 2 ^ 63 + biased_sum request.values)
        × (handle_sum exceptions send clock body c
            ≡ sent_packet
                (send_all send
                  (packet_wire exceptions sum_response_formatter sum_response_laws sum_response_id
                    (record { total = (total + 2 ^ 63) % 2 ^ 64 }))
                  c.socket)
                (record c { writer = w }))
  unfolding handle_sum object-Lawful number-Lawful
  handle_sum-answer body request c vec ok decoded few =
      let (total, added, sum) = add_values-total request.values few in
      let answer : SumResponse = record { total = (total + 2 ^ 63) % 2 ^ 64 } in
      let (w, e) =
        send_packet-wire sum_response_formatter sum_response_laws sum_response_id answer c vec ok
          (omega arith, tt) (omega arith) in
      (total, w, sum, rw (decoded, le→ltb max_sum_values (length request.values) few, added) e)
