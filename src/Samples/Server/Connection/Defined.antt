-- ===== src/Samples/Server/Connection/Defined.antt =====
-- samples/CppServer/main.cpp, class Connection: whatever a client sends, a connection is served
-- without undefined behaviour.
use memory_pack_cpp.Base.{
  ℕ, ◌≤◌, ◌≡◌, ◌∙◌, Bool, List, [], ◌∷◌, length, All, arith, subst, ◌+◌, ◌++◌, length-append,
  length-drop,
}
use memory_pack_cpp.Outcome.{Ensures, returns}
use memory_pack_cpp.Packet.{Packet, PacketFrameParser, header_size}
use memory_pack_cpp.Packet.Stream.{Frames-bodies, Frames-size, frames_size}
use memory_pack_cpp.Packet.Feed.{feed-FeedsStream, unread}
use memory_pack_cpp.Samples.Server.Connection.{
  max_body_length, Connection, handle_packet, handle_packets, receive, run, on_packet,
}
use memory_pack_cpp.Samples.Server.Connection.Calm.{
  IsUp, TicksFit, Calm, Calm-bind, Calm-pure, Calm-if, Ensures-alive, handle_packet-Calm,
  close_unless-Calm,
}

module _ (exceptions : Bool) (send : ℕ → ℕ → ℕ) (clock : ℕ → ℕ) where
  on_packet-Calm :
      TicksFit clock
      → (packet : Packet) → length packet.1 ≤ max_body_length
      → Calm (on_packet exceptions send clock packet)
  unfolding on_packet
  on_packet-Calm fit packet short c up = Ensures-alive c.alive (returns up) (
      Calm-bind (handle_packet exceptions send clock packet) _
        (handle_packet-Calm exceptions send clock fit packet short)
        (close_unless-Calm exceptions send clock) c up)

  -- A parser of the server that stands inside its buffer.
  abbrev Stands : PacketFrameParser → ℕ → Type 0
  Stands p ahead = (p.consumed + ahead ≤ length p.buffer) × (p.max_body_length ≡ max_body_length)

  handle_packets-Calm :
      TicksFit clock
      → (p : PacketFrameParser) (packets : List Packet)
      → All (λ p. length p.1 ≤ max_body_length) packets
      → Stands p (frames_size packets)
      → Calm (handle_packets exceptions send clock p packets)
  unfolding handle_packets
  handle_packets-Calm fit p [] h (inside, limit) c up = returns up
  handle_packets-Calm fit p (packet ∷ packets) h (inside, limit) c up =
      let moved : PacketFrameParser = record p {
        consumed = p.consumed + (header_size + length packet.1);
      } in
      Calm-bind (on_packet exceptions send clock packet) _ (on_packet-Calm fit packet h.0)
        (λ _. handle_packets-Calm fit moved packets h.1 (omega arith, limit))
        (record c { parser = p })
        (record { inside = omega arith; limit = limit; vector = up.vector })

  receive-Calm : TicksFit clock → (chunk : List ℕ) → Calm (receive exceptions send clock chunk)
  unfolding receive
  receive-Calm fit chunk c up =
      let p = c.parser in
      let (fed, e, step) = feed-FeedsStream p chunk up.inside in
      let bodies : All (λ p. length p.1 ≤ max_body_length) fed.packets =
        subst (λ (m : ℕ). All (λ p. length p.1 ≤ m) fed.packets) up.limit
          (Frames-bodies step.stream) in
      let filled : PacketFrameParser = record p { buffer = p.buffer ++ chunk } in
      let room : p.consumed + frames_size fed.packets ≤ length (p.buffer ++ chunk) = omega (
        arith,
        up.inside,
        Frames-size step.stream,
        length-append (unread p) chunk,
        length-drop p.consumed p.buffer,
        length-append p.buffer chunk,
      ) in
      rw (receive, e)
        (Calm-bind (handle_packets exceptions send clock filled fed.packets) _
          (handle_packets-Calm fit filled fed.packets bodies (room, up.limit))
          (λ _ c' up'.
            returns
              (record { inside = step.inside; limit = step.limit ∙ up.limit; vector = up'.vector }))
          c up)

  -- `Run` serves a connection without undefined behaviour, whatever bytes the client sends in whatever
  -- chunks, and whatever the system's `send` reports: it ends, by a return or an exception, with the
  -- parser's position inside its buffer and its limit unchanged. These hold of the connection at the
  -- start, its writer appends to the send buffer, and the times that the clock shows are numbers of
  -- ticks that fit an int64_t.
  pub run-IsUp :
      TicksFit clock
      → (chunks : List (List ℕ)) (c : Connection) → IsUp c
      → Ensures (λ _ c'. IsUp c') IsUp (run exceptions send clock chunks c)
  unfolding run
  run-IsUp fit [] c up = returns up
  run-IsUp fit (chunk ∷ chunks) c up = Ensures-alive c.alive (returns up) (
      Calm-bind (receive exceptions send clock chunk) _ (receive-Calm fit chunk)
        (λ ok. Calm-if ok (λ _. run-IsUp fit chunks) (λ _. Calm-pure tt)) c up)
