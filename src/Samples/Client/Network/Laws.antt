-- ===== src/Samples/Client/Network/Laws.antt =====
-- samples/CppClient/main.cpp: what recv_packet gives of what send_packet sends.
use native.Mathlib.Decide.{dec_lt}
use memory_pack_cpp.Base.{
  ℕ, zero, suc, ◌+◌, ◌-◌, ◌%◌, ◌^◌, ◌≤◌, ◌<◌, ◌≡◌, inl, inr, ◌∙◌, refl, sym, ap, Bool, true, false,
  List, [], ◌∷◌, ◌++◌, length, take, drop, if◌then◌else◌, some, arith, append_assoc, append-nil,
  length-append, length-drop, take-append, drop-append, take-add, drop-drop, lt→leb, ne→==false,
}
use memory_pack_cpp.Format.Collections.{is_empty_length}
use memory_pack_cpp.Packet.{header_bytes, read_header}
use memory_pack_cpp.Packet.Delivered.{read_header-header_bytes}
use memory_pack_cpp.Samples.Server.Sending.{Socket, send_all, SendsAtMost, send_all-Sent}
use memory_pack_cpp.Samples.Client.Network.{
  Incoming, given, with_body, recv_loop, recv_exact, after_header, recv_packet, after_sent,
  send_packet,
}

-- Asked for some bytes, by a count that is not negative, `recv` gives some and no more, as long as
-- there are any.
abbrev pub Receives : (ℕ → ℕ → ℕ) → Type 0
Receives recv = (k n : ℕ) → 0 < n → n < 2 ^ 31 → (0 < recv k n) × (recv k n ≤ n)

module _ (recv : ℕ → ℕ → ℕ) (receives : Receives recv) where
  -- The bytes that are missing are taken off the front of what the peer has sent.
  recv_loop-front :
      (fuel missing : ℕ) (got : List ℕ) (s : Incoming)
      → missing < fuel
      → missing < 2 ^ 31
      → missing ≤ length s.unread
      → (calls : ℕ) × (recv_loop recv fuel missing got s ≡ (
        some (got ++ take missing s.unread),
        record { unread = drop missing s.unread; calls = calls },
      ))
  unfolding recv_loop
  recv_loop-front zero missing got s enough small there = absurd (omega arith)
  recv_loop-front (suc fuel) missing got s enough small there = elim (dec_lt 0 missing) [
    | no z ↦
        let e : missing ≡ 0 = omega arith in
        (s.calls, rw (recv_loop, e) (ap (λ (u : List ℕ). (some u, s)) (sym (append-nil got))))
    | yes some_missing ↦
        let count = missing % 2 ^ 32 in
        let exact : count ≡ missing = omega arith in
        let n = given recv count s in
        let asked = receives s.calls count (omega arith) (omega arith) in
        let s' : Incoming = record { unread = drop n s.unread; calls = suc s.calls } in
        let (calls, e) =
          recv_loop-front fuel (missing - n) (got ++ take n s.unread) s' (omega (arith, asked.0))
            (omega arith) (omega (arith, length-drop n s.unread)) in
        let total : n + (missing - n) ≡ missing = omega (arith, asked.1) in
        let front : (got ++ take n s.unread) ++ take (missing - n) (drop n s.unread)
            ≡ got ++ take missing s.unread =
          append_assoc got (take n s.unread) (take (missing - n) (drop n s.unread))
          ∙ ap (λ (u : List ℕ). got ++ u)
              (take-add n (missing - n) s.unread ∙ ap (λ (m : ℕ). take m s.unread) total) in
        let back : drop (missing - n) (drop n s.unread) ≡ drop missing s.unread =
          drop-drop n (missing - n) s.unread ∙ ap (λ (m : ℕ). drop m s.unread) total in
        (
          calls,
          rw
              (
                recv_loop,
                ne→==false missing 0 (omega arith),
                ne→==false n 0 (omega (arith, asked.0)),
              )
              (e ∙ λ i. (some (front i), record { unread = back i; calls = calls })),
        )
  ]

  recv_exact-front :
      (front rest : List ℕ) (s : Incoming)
      → s.unread ≡ front ++ rest
      → length front < 2 ^ 31
      → (calls : ℕ) × (recv_exact recv (length front) s
          ≡ (some front, record { unread = rest; calls = calls }))
  unfolding recv_exact
  recv_exact-front front rest s e small =
      let sizes = ap length e ∙ length-append front rest in
      let (calls, same) =
        recv_loop-front (suc (length front)) (length front) [] s (omega arith) small
          (omega arith) in
      let taken : take (length front) s.unread ≡ front =
        ap (λ (u : List ℕ). take (length front) u) e ∙ take-append front rest in
      let left : drop (length front) s.unread ≡ rest =
        ap (λ (u : List ℕ). drop (length front) u) e ∙ drop-append front rest in
      (calls, same ∙ λ i. (some (taken i), record { unread = left i; calls = calls }))

  body_received :
      (id : ℕ) (body rest : List ℕ) (s : Incoming)
      → s.unread ≡ body ++ rest
      → length body < 2 ^ 31
      → (calls : ℕ) × ((if is_empty_length (length body)
            then (some (id, []), s)
            else with_body recv id (recv_exact recv (length body) s))
          ≡ (some (id, body), record { unread = rest; calls = calls }))
  body_received id [] rest s e short =
      (s.calls, λ i. (some (id, []), record { unread = e i; calls = s.calls }))
  body_received id (b ∷ bs) rest s e short =
      let (calls, same) = recv_exact-front (b ∷ bs) rest s e short in
      (
        calls,
        rw (lt→leb (2 ^ 31) (length (b ∷ bs)) short, ne→==false (length (b ∷ bs)) 0 (omega arith))
            (ap (with_body recv id) same),
      )

  after_header-body :
      (id : ℕ) (body rest : List ℕ) (s : Incoming)
      → s.unread ≡ body ++ rest
      → id < 2 ^ 16
      → length body < 2 ^ 31
      → (calls : ℕ) × (after_header recv (some (header_bytes id (length body)), s)
          ≡ (some (id, body), record { unread = rest; calls = calls }))
  after_header-body id body rest s e small short =
      let parsed : read_header (header_bytes id (length body))
          ≡ record { id = id; body_length = length body } =
        read_header-header_bytes id (length body) [] small (omega arith) in
      rw parsed (body_received id body rest s e short)

  -- A packet that stands in front of what the peer has sent is received.
  pub recv_packet-front :
      (id : ℕ) (body rest : List ℕ) (s : Incoming)
      → id < 2 ^ 16
      → length body < 2 ^ 31
      → s.unread ≡ header_bytes id (length body) ++ (body ++ rest)
      → (calls : ℕ) × (recv_packet recv s
          ≡ (some (id, body), record { unread = rest; calls = calls }))
  unfolding recv_packet
  recv_packet-front id body rest s small short e =
      let (calls, first) =
        recv_exact-front (header_bytes id (length body)) (body ++ rest) s e (omega arith) in
      let s' : Incoming = record { unread = body ++ rest; calls = calls } in
      let (calls', second) = after_header-body id body rest s' refl small short in
      (calls', ap (after_header recv) first ∙ second)

all_sent :
    (send : ℕ → ℕ → ℕ) (most : SendsAtMost send) (bytes : List ℕ) (s : Socket)
    → length bytes < 2 ^ 31
    → (send_all send bytes s).0 ≡ true
    → (send_all send bytes s).1.wire ≡ s.wire ++ bytes
all_sent send most bytes s short ok = elim (send_all-Sent send most bytes s short) [
  | inl h ↦ h.1
  | inr h ↦ cc
]

body_sent :
    (send : ℕ → ℕ → ℕ) (most : SendsAtMost send) (body : List ℕ) (s : Socket)
    → length body < 2 ^ 31
    → (if is_empty_length (length body) then (true, s) else send_all send body s).0 ≡ true
    → (if is_empty_length (length body) then (true, s) else send_all send body s).1.wire
      ≡ s.wire ++ body
body_sent send most [] s short ok = sym (append-nil s.wire)
body_sent send most (b ∷ bs) s short ok =
    let full : is_empty_length (length (b ∷ bs)) ≡ false =
      rw (lt→leb (2 ^ 31) (length (b ∷ bs)) short, ne→==false (length (b ∷ bs)) 0 (omega arith))
        refl in
    let ok' : (send_all send (b ∷ bs) s).0 ≡ true = rw full at ok in
    rw full (all_sent send most (b ∷ bs) s short ok')

after_sent-wire :
    (send : ℕ → ℕ → ℕ) (most : SendsAtMost send) (front body : List ℕ) (s : Socket)
    (r : Bool × Socket)
    → send_all send front s ≡ r
    → length front < 2 ^ 31
    → length body < 2 ^ 31
    → (after_sent send body r).0 ≡ true
    → (after_sent send body r).1.wire ≡ s.wire ++ (front ++ body)
after_sent-wire send most front body s (false, t) e first_short short ok = cc
after_sent-wire send most front body s (true, t) e first_short short ok =
    let bits : length body % 2 ^ 32 ≡ length body = omega arith in
    let ok' : (if is_empty_length (length body) then (true, t) else send_all send body t).0 ≡ true =
      rw bits at ok in
    let first : t.wire ≡ s.wire ++ front =
      let h = all_sent send most front s first_short (ap (λ (q : Bool × Socket). q.0) e) in
      sym (ap (λ (q : Bool × Socket). q.1.wire) e) ∙ h in
    rw bits (
      body_sent send most body t short ok'
      ∙ ap (λ (u : List ℕ). u ++ body) first
      ∙ append_assoc s.wire front body)

-- What send_packet puts on the wire when it returns true.
send_packet-sent :
    (send : ℕ → ℕ → ℕ) (id : ℕ) (body : List ℕ) (s : Socket)
    → SendsAtMost send
    → length body < 2 ^ 31
    → (send_packet send id body s).0 ≡ true
    → (send_packet send id body s).1.wire ≡ s.wire ++ (header_bytes id (length body) ++ body)
unfolding send_packet
send_packet-sent send id body s most short ok =
    let bits : length body % 2 ^ 32 ≡ length body = omega arith in
    after_sent-wire send most (header_bytes id (length body % 2 ^ 32)) body s _ refl (omega arith)
      short ok
    ∙ ap (λ (n : ℕ). s.wire ++ (header_bytes id n ++ body)) bits

-- Where send_packet returns true, recv_packet on the other side gives the id and the body of the
-- packet, and what follows the packet stays to be received. This holds however the system cuts the
-- bytes: its `send` takes no more bytes than it is given, and its `recv` gives some of the bytes that
-- are asked for, and no more, as long as there are any. The id has 16 bits, the body is shorter than
-- 2^31 bytes.
pub recv_packet-send_packet :
    (send recv : ℕ → ℕ → ℕ) (id : ℕ) (body rest sent : List ℕ) (socket : Socket) (s : Incoming)
    → SendsAtMost send
    → Receives recv
    → id < 2 ^ 16
    → length body < 2 ^ 31
    → (send_packet send id body socket).0 ≡ true
    → (send_packet send id body socket).1.wire ≡ socket.wire ++ sent
    → s.unread ≡ sent ++ rest
    → (calls : ℕ) × (recv_packet recv s
        ≡ (some (id, body), record { unread = rest; calls = calls }))
recv_packet-send_packet send recv id body rest sent socket s most receives small short ok wire e =
    let packet : List ℕ = header_bytes id (length body) ++ body in
    let same : sent ≡ packet =
      sym (drop-append socket.wire sent)
      ∙ ap (λ (u : List ℕ). drop (length socket.wire) u)
          (sym wire ∙ send_packet-sent send id body socket most short ok)
      ∙ drop-append socket.wire packet in
    recv_packet-front recv receives id body rest s small short (
      e
      ∙ ap (λ (u : List ℕ). u ++ rest) same
      ∙ append_assoc (header_bytes id (length body)) body rest)
