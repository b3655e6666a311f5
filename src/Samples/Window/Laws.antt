-- ===== src/Samples/Window/Laws.antt =====
-- samples/ChatClient: what the receive thread posts.
use memory_pack_cpp.Base.{
  ℕ, zero, suc, ◌≤◌, ◌<◌, ◌^◌, ◌≡◌, ◌∙◌, refl, ap, true, List, [], ◌∷◌, ◌++◌, map, length, All,
  Option, none, some, arith, length-append, min,
}
use memory_pack_cpp.Packet.{Packet}
use memory_pack_cpp.Packet.Delivered.{packets_wire}
use memory_pack_cpp.Samples.Client.Network.{Incoming, recv_loop, recv_exact, recv_packet}
use memory_pack_cpp.Samples.Client.Network.Laws.{Receives, recv_packet-front}
use memory_pack_cpp.Samples.Window.{
  net_packet, net_disconnect, posted, after_recv, recv_rounds, recv_thread,
}

-- A header says what such a packet is.
abbrev pub HasHeader : Packet → Type 0
HasHeader p = (p.0 < 2 ^ 16) × (length p.1 < 2 ^ 31)

length-packets_wire : (ps : List Packet) → length ps ≤ length (packets_wire ps)
length-packets_wire [] = omega arith
length-packets_wire (p ∷ ps) =
    omega (arith, length-append p.1 (packets_wire ps), length-packets_wire ps)

-- Nothing is received of nothing.
recv_packet-nothing :
    (recv : ℕ → ℕ → ℕ) (calls : ℕ)
    → (recv_packet recv (record { unread = []; calls = calls })).0 ≡ none
unfolding recv_packet recv_exact recv_loop
recv_packet-nothing recv calls = let e : min (recv calls 6) 0 ≡ 0 = omega arith in rw e refl

module _ (recv : ℕ → ℕ → ℕ) (receives : Receives recv) where
  recv_rounds-posts :
      (ps : List Packet) (fuel k : ℕ) (s : Incoming)
      → length ps < fuel
      → All HasHeader ps
      → s.unread ≡ packets_wire ps
      → recv_rounds recv (λ _. true) fuel k s ≡ some (map net_packet ps ++ (net_disconnect ∷ []))
  unfolding recv_rounds
  recv_rounds-posts ps zero k s enough h e = absurd (omega arith)
  recv_rounds-posts [] (suc fuel) k s enough h e =
      let nothing : (recv_packet recv s).0 ≡ none =
        ap (λ (u : List ℕ). (recv_packet recv (record { unread = u; calls = s.calls })).0) e
        ∙ recv_packet-nothing recv s.calls in
      ended (recv_packet recv s) nothing
    where
      ended :
          (r : Option Packet × Incoming)
          → r.0 ≡ none
          → after_recv recv (λ _. true) (recv_rounds recv (λ _. true) fuel (suc k)) (suc k) r
            ≡ some (net_disconnect ∷ [])
      ended (none, t) z = refl
      ended (some q, t) z = cc
  recv_rounds-posts (p ∷ ps) (suc fuel) k s enough h e =
      let (calls, first) =
        recv_packet-front recv receives p.0 p.1 (packets_wire ps) s h.0.0 h.0.1 e in
      rw first (
        ap (posted recv (λ _. true) (net_packet p)) (
          recv_rounds-posts ps fuel (suc k) (record { unread = packets_wire ps; calls = calls })
            (omega arith) h.1 refl))

  -- The receive thread posts the packets that the server has sent, each with its id and its body, in
  -- order, and then that the connection has ended. This holds however `recv` cuts the bytes, as long as
  -- it gives some of those that are asked for, and no more, while there are any, and ends behind the
  -- last packet; nobody stops the thread. The ids have 16 bits, the bodies are shorter than 2^31 bytes.
  pub recv_thread-posts :
      (ps : List Packet) (s : Incoming)
      → All HasHeader ps
      → s.unread ≡ packets_wire ps
      → recv_thread recv (λ _. true) s ≡ some (map net_packet ps ++ (net_disconnect ∷ []))
  unfolding recv_thread
  recv_thread-posts ps s h e =
      recv_rounds-posts ps (suc (length s.unread)) 0 s
        (omega (arith, ap length e, length-packets_wire ps)) h e
