-- ===== src/Examples/Client.antt =====
-- The client of samples/CppClient, and arrays, on concrete input.
use memory_pack_cpp.Base.{ℕ, ◌≡◌, refl, true, false, List, [], ◌∷◌, ◌++◌, min, some, arith}
use memory_pack_cpp.Outcome.{returned}
use memory_pack_cpp.Reader.{Reader, default_options, new_reader}
use memory_pack_cpp.Reader.Reads.{Ready, advanced}
use memory_pack_cpp.Format.Vectors.{read_array}
use memory_pack_cpp.Format.Vectors.Laws.{vector_wire}
use memory_pack_cpp.Format.Arrays.Laws.{read_array-Reads}
use memory_pack_cpp.Packet.{header_bytes}
use memory_pack_cpp.Samples.Server.Sending.{Socket, SendsAtMost}
use memory_pack_cpp.Samples.Client.Network.{Incoming, recv_packet, send_packet}
use memory_pack_cpp.Samples.Client.Network.Laws.{Receives, recv_packet-send_packet}
use memory_pack_cpp.Samples.Client.Packets.{dispatch_packet}
use memory_pack_cpp.Samples.Client.Packets.Laws.{IsReceived, dispatch_packet-IsReceived}
use memory_pack_cpp.Samples.Window.{net_packet, net_disconnect, recv_thread}
use memory_pack_cpp.Samples.Window.Laws.{recv_thread-posts}

-- `send` takes at most five bytes, `recv` gives at most three.
abbrev five : ℕ → ℕ → ℕ
five k n = min n 5

abbrev three : ℕ → ℕ → ℕ
three k n = min n 3

five-SendsAtMost : SendsAtMost five
five-SendsAtMost k n small = omega arith

three-Receives : Receives three
three-Receives k n h small = (omega arith, omega arith)

abbrev fresh : Socket
fresh = record { wire = []; calls = 0 }

abbrev body : List ℕ
body = 1 ∷ 2 ∷ 3 ∷ []

-- The packet, and two bytes of the next one.
abbrev arrived : Incoming
arrived = record { unread = 8 ∷ 0 ∷ 3 ∷ 0 ∷ 0 ∷ 0 ∷ 1 ∷ 2 ∷ 3 ∷ 9 ∷ 0 ∷ []; calls = 0 }

body_sent :
    ((send_packet five 8 body fresh).0 ≡ true)
    × ((send_packet five 8 body fresh).1.wire ≡ header_bytes 8 3 ++ body)
unfolding send_packet memory_pack_cpp.Samples.Server.Sending.send_all
    memory_pack_cpp.Samples.Server.Sending.send_loop
body_sent = (refl, refl)

recv_packet-send_packet_example :
    (calls : ℕ) × (recv_packet three arrived
      ≡ (some (8, body), record { unread = 9 ∷ 0 ∷ []; calls = calls }))
recv_packet-send_packet_example =
    recv_packet-send_packet five three 8 body (9 ∷ 0 ∷ []) (header_bytes 8 3 ++ body) fresh arrived
      five-SendsAtMost three-Receives (omega arith) (omega arith) body_sent.0 body_sent.1 refl

-- A SkillSlotData that claims 9 skills, of which it has no more than one.
abbrev skills : List ℕ
skills = 3 ∷ 7 ∷ 0 ∷ 0 ∷ 0 ∷ 9 ∷ 0 ∷ 0 ∷ 0 ∷ 1 ∷ 0 ∷ 0 ∷ 0 ∷ []

dispatch_packet-IsReceived_example : IsReceived (dispatch_packet false 9 skills)
dispatch_packet-IsReceived_example = dispatch_packet-IsReceived false 9 skills (omega arith)

-- Three numbers, and the next value, for an array of two.
abbrev numbers : List ℕ
numbers = vector_wire 2 (500 ∷ 600 ∷ 700 ∷ []) ++ (42 ∷ [])

abbrev input : Reader
input = new_reader true default_options numbers

input-Ready : Ready 0 input
input-Ready = record {
  valid = record { in_bounds = omega arith; fits = omega arith };
  clean = refl;
  collections = omega arith;
  strings = omega arith;
  levels_left = omega arith;
  depth_fits = omega arith;
}

read_array-Reads_example : read_array 2 2 input ≡ returned (500 ∷ 600 ∷ []) (advanced 10 input)
read_array-Reads_example =
    read_array-Reads 0 2 2 (500 ∷ 600 ∷ 700 ∷ []) (omega arith, (omega arith, (omega arith, tt)))
      (omega arith) input (42 ∷ []) input-Ready refl

-- Packet 3 with an empty body, then packet 105 with one byte.
abbrev posts : Incoming
posts = record { unread = 3 ∷ 0 ∷ 0 ∷ 0 ∷ 0 ∷ 0 ∷ 105 ∷ 0 ∷ 1 ∷ 0 ∷ 0 ∷ 0 ∷ 7 ∷ []; calls = 0 }

recv_thread-posts_example :
    recv_thread three (λ _. true) posts
    ≡ some (net_packet (3, []) ∷ net_packet (105, 7 ∷ []) ∷ net_disconnect ∷ [])
recv_thread-posts_example =
    recv_thread-posts three three-Receives ((3, []) ∷ (105, 7 ∷ []) ∷ []) posts
      ((omega arith, omega arith), ((omega arith, omega arith), tt)) refl
