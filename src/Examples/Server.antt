-- ===== src/Examples/Server.antt =====
-- samples/CppServer/main.cpp: requests to a server whose socket takes at most five bytes at a time.
use memory_pack_cpp.Base.{
  ℕ, ◌+◌, ◌*◌, ◌%◌, ◌^◌, ◌<◌, ◌≡◌, ◌⊎◌, refl, true, false, List, [], ◌∷◌, ◌++◌, length, take, some,
  arith, min,
}
use memory_pack_cpp.Outcome.{returned, Ensures}
use memory_pack_cpp.Writer.{Writer}
use memory_pack_cpp.Writer.Appends.{IsValid}
use memory_pack_cpp.Packet.Written.{packet_wire}
use memory_pack_cpp.Samples.Server.Packets.{
  EchoRequest, echo_request_formatter, sum_request_formatter, sum_response_formatter,
  sum_response_id,
}
use memory_pack_cpp.Samples.Server.Packets.Laws.{sum_response_laws}
use memory_pack_cpp.Samples.Server.Sending.{Socket, send_all, send_all-Sent}
use memory_pack_cpp.Samples.Server.Connection.{
  Connection, entity, new_connection, decode_body, handle_sum, run,
}
use memory_pack_cpp.Samples.Server.Connection.Answers.{biased_sum, sent_packet, handle_sum-answer}
use memory_pack_cpp.Samples.Server.Connection.Calm.{IsUp, TicksFit}
use memory_pack_cpp.Samples.Server.Connection.Defined.{run-IsUp}

abbrev five : ℕ → ℕ → ℕ
five k n = min 5 n

-- A clock that starts at the Unix epoch and stops.
abbrev ticking : ℕ → ℕ
ticking k = 2 ^ 63 + min (1000 * k) (10 ^ 15)

ticking-TicksFit : TicksFit ticking
ticking-TicksFit k = (omega arith, omega arith)

abbrev bytes_to_send : List ℕ
bytes_to_send = 1 ∷ 2 ∷ 3 ∷ 4 ∷ 5 ∷ 6 ∷ 7 ∷ []

abbrev quiet : Socket
quiet = record { wire = []; calls = 0 }

send_all-Sent_example :
    ((send_all five bytes_to_send quiet).0 ≡ true)
      × ((send_all five bytes_to_send quiet).1.wire ≡ [] ++ bytes_to_send)
    ⊎ (((send_all five bytes_to_send quiet).0 ≡ false)
        × ((k : ℕ) × (k < length bytes_to_send)
            × ((send_all five bytes_to_send quiet).1.wire ≡ [] ++ take k bytes_to_send)))
send_all-Sent_example =
    send_all-Sent five (λ k n small. omega arith) bytes_to_send quiet (omega arith)

abbrev server : Connection
server = new_connection true

server-IsUp : IsUp server
server-IsUp = record { inside = omega arith; limit = refl; vector = ([], refl) }

-- Packet 203 with the values 5 and -1, cut in two.
abbrev sum_body : List ℕ
sum_body = 1 ∷ 2 ∷ 0 ∷ 0 ∷ 0 ∷ 5 ∷ 0 ∷ 0 ∷ 0 ∷ 255 ∷ 255 ∷ 255 ∷ 255 ∷ []

run-IsUp_example :
    Ensures
      (λ _ c. IsUp c)
      IsUp
      (run true five ticking ((203 ∷ 0 ∷ []) ∷ (13 ∷ 0 ∷ 0 ∷ 0 ∷ sum_body) ∷ []) server)
run-IsUp_example =
    run-IsUp true five ticking ticking-TicksFit ((203 ∷ 0 ∷ []) ∷ (13 ∷ 0 ∷ 0 ∷ 0 ∷ sum_body) ∷ [])
      server server-IsUp

server-IsValid : IsValid server.writer
server-IsValid = record { owned_fits = omega arith; fixed_fits = tt }

decoded_sum :
    decode_body true five ticking sum_request_formatter sum_body server
    ≡ returned (some (record { values = 5 ∷ 0xFFFFFFFF ∷ [] })) server
unfolding decode_body memory_pack_cpp.Format.Objects.deserialize_object
    memory_pack_cpp.Reader.Headers.read_object_header memory_pack_cpp.Reader.Headers.read_byte
    memory_pack_cpp.Reader.ensure_bytes memory_pack_cpp.Reader.take_bytes
    memory_pack_cpp.Reader.enter_object memory_pack_cpp.Format.Objects.read_members
    memory_pack_cpp.Format.Vectors.read_vector memory_pack_cpp.Reader.Headers.read_collection_length
    memory_pack_cpp.Reader.is_failed memory_pack_cpp.Reader.leave_object
    memory_pack_cpp.Reader.Headers.read_raw
decoded_sum = refl

handle_sum-answer_example :
    (total : ℕ) × (w : Writer) × (total + 2 * 2 ^ 31 ≡ 2 ^ 63 + biased_sum (5 ∷ 0xFFFFFFFF ∷ []))
    × (handle_sum true five ticking sum_body server
        ≡ sent_packet true five ticking
            (send_all five
              (packet_wire true sum_response_formatter sum_response_laws sum_response_id
                (record { total = (total + 2 ^ 63) % 2 ^ 64 }))
              server.socket)
            (record server { writer = w }))
handle_sum-answer_example =
    handle_sum-answer true five ticking sum_body (record { values = 5 ∷ 0xFFFFFFFF ∷ [] }) server
      ([], refl) server-IsValid decoded_sum (omega arith)

-- Request 7 with the text "hi".
abbrev echo_body : List ℕ
echo_body = 2 ∷ 7 ∷ 0 ∷ 0 ∷ 0 ∷ 0xFD ∷ 0xFF ∷ 0xFF ∷ 0xFF ∷ 2 ∷ 0 ∷ 0 ∷ 0 ∷ 0x68 ∷ 0x69 ∷ []

abbrev echo_request : EchoRequest
echo_request = record { seq = 7; text = 0x68 ∷ 0x69 ∷ [] }

decoded_echo :
    decode_body true five ticking echo_request_formatter echo_body server
    ≡ returned (some echo_request) server
unfolding decode_body memory_pack_cpp.Format.Objects.deserialize_object
    memory_pack_cpp.Reader.Headers.read_object_header memory_pack_cpp.Reader.Headers.read_byte
    memory_pack_cpp.Reader.ensure_bytes memory_pack_cpp.Reader.take_bytes
    memory_pack_cpp.Reader.enter_object memory_pack_cpp.Format.Objects.read_members
    memory_pack_cpp.Reader.Strings.read_string_into memory_pack_cpp.Reader.is_failed
    memory_pack_cpp.Reader.leave_object memory_pack_cpp.Reader.Headers.read_raw
decoded_echo = refl

-- Entity 3 stands at 4.5, 7.5 and -1.5.
third_entity : entity 3 ≡ record {
  id = 1003;
  position = 0x40900000 ∷ 0x40F00000 ∷ 0xBFC00000 ∷ [];
  name = 0x45 ∷ 0x6E ∷ 0x74 ∷ 0x69 ∷ 0x74 ∷ 0x79 ∷ 0x5F ∷ 0x33 ∷ [];
}
unfolding entity
third_entity = refl
