-- ===== src/Samples/Client/Network.antt =====
-- samples/CppClient/main.cpp: recv_exact, send_exact, send_packet and recv_packet. The system's `send`
-- and `recv` are parameters: how many of the n bytes that it is asked for the k-th call moves, and 0
-- where it returns 0 or an error. `recv` has no more to give than the peer has sent. The
-- count n is an int, given by its bits.
pub mod Laws
use memory_pack_cpp.Base.{
  ℕ, zero, suc, ◌+◌, ◌-◌, ◌%◌, ◌^◌, Bool, true, false, List, [], ◌∷◌, ◌++◌, length, take, drop, min,
  ◌==◌, if◌then◌else◌, Option, none, some,
}
use memory_pack_cpp.Format.Collections.{is_empty_length}
use memory_pack_cpp.Packet.{Packet, PacketHeader, header_size, header_bytes, read_header}
use memory_pack_cpp.Samples.Server.Sending.{Socket, send_all}

-- What the peer has sent and is not received yet, and how often `recv` was called.
pub record Incoming : Type 0 where
  pub unread : List ℕ
  pub calls : ℕ

module _ (recv : ℕ → ℕ → ℕ) where
  -- What a call of `recv` for `n` bytes gives.
  abbrev pub given : ℕ → Incoming → ℕ
  given n s = min (recv s.calls n) (length s.unread)

  -- while (received < len) { n = recv(...); if (n <= 0) return false; received += n; }, with the bytes
  -- that are missing; the count given to `recv` is static_cast<int>(len - received). Each round that
  -- goes on receives a byte at least. `none` is false.
  unfoldable pub recv_loop : ℕ → ℕ → List ℕ → Incoming → Option (List ℕ) × Incoming
  recv_loop zero missing got s = (none, s)
  recv_loop (suc fuel) missing got s =
      let n = given (missing % 2 ^ 32) s in
      let rest =
        recv_loop fuel (missing - n) (got ++ take n s.unread)
          (record { unread = drop n s.unread; calls = suc s.calls }) in
      if missing == 0
      then (some got, s)
      else if n == 0
      then (none, record s { calls = suc s.calls })
      else rest

  -- bool recv_exact(socket_t sock, uint8_t* buf, size_t len)
  unfoldable pub recv_exact : ℕ → Incoming → Option (List ℕ) × Incoming
  unfolding recv_loop
  recv_exact len s = recv_loop (suc len) len [] s

  abbrev pub with_body : ℕ → Option (List ℕ) × Incoming → Option Packet × Incoming
  with_body id (none, s) = (none, s)
  with_body id (some body, s) = (some (id, body), s)

  abbrev pub after_header : Option (List ℕ) × Incoming → Option Packet × Incoming
  after_header (none, s) = (none, s)
  after_header (some header, s) =
      let h = read_header header in
      if is_empty_length h.body_length
      then (some (h.id, []), s)
      else with_body h.id (recv_exact h.body_length s)

  -- bool recv_packet(socket_t sock, PacketId& id, std::vector<uint8_t>& body)
  unfoldable pub recv_packet : Incoming → Option Packet × Incoming
  unfolding recv_exact read_header
  recv_packet s = after_header (recv_exact header_size s)

module _ (send : ℕ → ℕ → ℕ) where
  abbrev pub after_sent : List ℕ → Bool × Socket → Bool × Socket
  after_sent body (false, s) = (false, s)
  after_sent body (true, s) =
      if is_empty_length (length body % 2 ^ 32) then (true, s) else send_all send body s

  -- bool send_packet(socket_t sock, PacketId id, const std::vector<uint8_t>& body), where send_exact is
  -- the loop of the server's SendAll.
  unfoldable pub send_packet : ℕ → List ℕ → Socket → Bool × Socket
  send_packet id body s = after_sent body (send_all send (header_bytes id (length body % 2 ^ 32)) s)
