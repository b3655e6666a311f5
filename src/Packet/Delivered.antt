-- ===== src/Packet/Delivered.antt =====
-- include/memorypack/packet.hpp: a parser that is fed written packets hands them out.
use memory_pack_cpp.Base.{
  ℕ, ◌+◌, ◌^◌, ◌≤◌, ◌<◌, ◌≡◌, ◌∙◌, refl, sym, ap, Bool, true, false, List, [], ◌∷◌, ◌++◌, length,
  drop, All, some, none, arith, append_assoc, take-append, drop-append, drop-drop, length-append,
  lt→leb, if◌then◌else◌, le→ltb, from_le-to_le, subst,
}
use memory_pack_cpp.Packet.{
  PacketFrameParser, Packet, Fed, header_size, header_bytes, read_header, feed,
}
use memory_pack_cpp.Packet.Stream.{incomplete, frame, start_of, Frames, stop, next, Frames-unique}
use memory_pack_cpp.Packet.Feed.{unread, feed-FeedsStream}

-- The bytes that WritePacket makes of packets.
abbrev pub packets_wire : List Packet → List ℕ
packets_wire [] = []
packets_wire (p ∷ ps) = header_bytes p.0 (length p.1) ++ (p.1 ++ packets_wire ps)

-- An id of 16 bits, and a body that the parser's limit allows.
abbrev pub Accepted : ℕ → Packet → Type 0
Accepted max p = (p.0 < 2 ^ 16) × (length p.1 ≤ max)

pub read_header-header_bytes :
    (id n : ℕ) (rest : List ℕ)
    → id < 2 ^ 16
    → n < 2 ^ 32
    → read_header (header_bytes id n ++ rest) ≡ record { id = id; body_length = n }
unfolding read_header
read_header-header_bytes id n rest h k =
    rw (from_le-to_le 2 id (omega arith), from_le-to_le 4 n (omega arith)) refl

start_of-packet :
    (max : ℕ) (p : Packet) (rest : List ℕ)
    → max < 2 ^ 31
    → Accepted max p
    → start_of max (header_bytes p.0 (length p.1) ++ (p.1 ++ rest)) ≡ frame p rest
unfolding start_of
start_of-packet max p rest small ok =
    let n = length p.1 in
    let whole : List ℕ = header_bytes p.0 n ++ (p.1 ++ rest) in
    let size : length whole ≡ header_size + (n + length rest) =
      omega (arith, length-append p.1 rest) in
    let behind : drop (header_size + n) whole ≡ rest =
      sym (drop-drop header_size n whole) ∙ drop-append p.1 rest in
    rw
      (
        read_header-header_bytes p.0 n (p.1 ++ rest) ok.0 (omega (arith, ok.1)),
        le→ltb (length whole) header_size (omega (arith, size)),
        lt→leb (2 ^ 31) n (omega (arith, ok.1)),
        le→ltb max n ok.1,
        le→ltb (length whole) (header_size + n) (omega (arith, size)),
        behind,
        take-append p.1 rest,
      )
      refl

-- Written packets are the packets of a stream, up to what follows the last one.
Frames-packets :
    (max : ℕ) (ps : List Packet) (tail : List ℕ)
    → max < 2 ^ 31
    → All (Accepted max) ps
    → start_of max tail ≡ incomplete
    → Frames max (packets_wire ps ++ tail) ps (some tail)
Frames-packets max [] tail small ok h = stop h
Frames-packets max (p ∷ ps) tail small ok h =
    let rest : List ℕ = packets_wire ps ++ tail in
    let same : packets_wire (p ∷ ps) ++ tail ≡ header_bytes p.0 (length p.1) ++ (p.1 ++ rest) =
      ap (λ (u : List ℕ). header_bytes p.0 (length p.1) ++ u)
        (append_assoc p.1 (packets_wire ps) tail) in
    subst (λ (u : List ℕ). Frames max u (p ∷ ps) (some tail)) (sym same)
      (next (start_of-packet max p rest small ok.0) (Frames-packets max ps tail small ok.1 h))

-- Which of the two ends a call of Feed has.
accepts-some :
    (b : Bool) (left tail : List ℕ)
    → (if b then some left else none) ≡ some tail
    → (b ≡ true) × (left ≡ tail)
accepts-some true left tail e = (refl, cc)
accepts-some false left tail e = cc

-- A parser that is fed written packets hands all of them out, each with its id and its body, in
-- order: where the bytes that it holds and the new ones are packets and less than one further packet,
-- `Feed` returns true with just these packets, and keeps the rest. The ids have 16 bits, the bodies
-- are within the parser's limit, which is an int32_t, and the parser's position is inside its buffer.
pub feed-delivers :
    (p : PacketFrameParser) (bytes : List ℕ) (ps : List Packet) (tail : List ℕ)
    → p.consumed ≤ length p.buffer
    → p.max_body_length < 2 ^ 31
    → All (Accepted p.max_body_length) ps
    → start_of p.max_body_length tail ≡ incomplete
    → unread p ++ bytes ≡ packets_wire ps ++ tail
    → (fed : Fed) × (feed p bytes ≡ some fed)
      × (fed.accepted ≡ true)
      × (fed.packets ≡ ps)
      × (unread fed.parser ≡ tail)
feed-delivers p bytes ps tail inside small ok h same =
    let (fed, e, step) = feed-FeedsStream p bytes inside in
    let (packets, ends) =
      Frames-unique step.stream (Frames-packets p.max_body_length ps tail small ok h) same in
    let (accepted, left) = accepts-some fed.accepted (unread fed.parser) tail ends in
    (fed, e, accepted, packets, left)
