-- ===== src/Packet/Feed.antt =====
-- include/memorypack/packet.hpp: Feed hands out the packets of the stream, whatever the chunks.
use memory_pack_cpp.Base.{
  ℕ, zero, suc, ◌+◌, ◌-◌, ◌*◌, ◌≤◌, ◌<◌, ◌≡◌, ◌∙◌, refl, sym, ap, subst, Bool, true, false, List,
  [], ◌∷◌, ◌++◌, length, take, drop, ltb, leb, ◌==◌, ◌||◌, if◌then◌else◌, Option, none, some, ◌⊎◌,
  arith, Bool-cases, inl, inr, length-append, length-drop, ltb→le, append_assoc, append-nil,
  drop-drop, drop-length,
}
use memory_pack_cpp.Packet.{
  header_size, read_header, PacketFrameParser, Packet, feed_loop, waits, violates, LoopEnd,
  buffered, compact, feed, Fed, fed_of,
}
use memory_pack_cpp.Packet.Stream.{
  frame, start_of, start_of-frame, drop-prefix, Frames-append, Frames-unique, Frames-rest_short,
  Frames, stop, break, next, rejects, body_length_of,
}

-- The bytes that the parser still holds.
abbrev pub unread : PacketFrameParser → List ℕ
unread p = drop p.consumed p.buffer

abbrev Loop : PacketFrameParser → List Packet → LoopEnd → Type 0
Loop p seen end =
    ((c : ℕ) × (ps : List Packet) × (end ≡ waits (record p { consumed = c }) (seen ++ ps))
      × (c ≤ length p.buffer)
      × Frames p.max_body_length (unread p) ps (some (drop c p.buffer)))
    ⊎ ((ps : List Packet) × (end ≡ violates (record p { buffer = []; consumed = 0 }) (seen ++ ps))
        × Frames p.max_body_length (unread p) ps none)

-- The parser behind the frame that it stands at, and the packet of that frame.
abbrev behind : PacketFrameParser → PacketFrameParser
behind p = record p { consumed = p.consumed + (header_size + body_length_of (unread p)) }

abbrev packet_at : PacketFrameParser → Packet
packet_at p = (
  (read_header (unread p)).id,
  take (body_length_of (unread p)) (drop (p.consumed + header_size) p.buffer),
)

start_of-unread :
    (p : PacketFrameParser)
    → header_size + body_length_of (unread p) ≤ length (unread p)
    → rejects p.max_body_length (body_length_of (unread p)) ≡ false
    → start_of p.max_body_length (unread p) ≡ frame (packet_at p) (unread (behind p))
start_of-unread p whole good =
    start_of-frame p.max_body_length (unread p) whole good
    ∙ rw (
      drop-drop p.consumed header_size p.buffer,
      drop-drop p.consumed (header_size + body_length_of (unread p)) p.buffer,
    )

-- The rounds behind a frame, as rounds from it.
Loop-extend :
    (p : PacketFrameParser) (seen : List Packet) (end : LoopEnd)
    → start_of p.max_body_length (unread p) ≡ frame (packet_at p) (unread (behind p))
    → Loop (behind p) (seen ++ (packet_at p ∷ [])) end
    → Loop p seen end
Loop-extend p seen end start (inl (c, ps, e, inside, f)) = inl (
  c,
  packet_at p ∷ ps,
  e ∙ ap (waits (record p { consumed = c })) (append_assoc seen (packet_at p ∷ []) ps),
  inside,
  next start f,
)
Loop-extend p seen end start (inr (ps, e, f)) = inr (
  packet_at p ∷ ps,
  e
      ∙ ap (violates (record p { buffer = []; consumed = 0 }))
          (append_assoc seen (packet_at p ∷ []) ps),
  next start f,
)

feed_loop-Loop :
    (fuel : ℕ) (p : PacketFrameParser) (seen : List Packet)
    → p.consumed ≤ length p.buffer
    → length p.buffer - p.consumed < fuel
    → Loop p seen (feed_loop fuel p seen)
unfolding feed_loop start_of
feed_loop-Loop zero p seen inside enough = absurd (omega arith)
feed_loop-Loop (suc fuel) p seen inside enough =
    let s = unread p in
    let av : length s ≡ length p.buffer - p.consumed = length-drop p.consumed p.buffer in
    let len = body_length_of s in
    elim (Bool-cases (ltb (length p.buffer - p.consumed) header_size)) [
      | inl short ↦ inl (p.consumed, [], rw (short, append-nil seen), inside, stop (rw (av, short)))
      | inr long ↦ elim (Bool-cases (rejects p.max_body_length len)) [
        | inl bad ↦ inr ([], rw (long, bad, append-nil seen), break (rw (av, long, bad)))
        | inr good ↦ elim (Bool-cases (ltb (length p.buffer - p.consumed) (header_size + len))) [
          | inl short ↦ inl (
            p.consumed,
            [],
            rw (long, good, short, append-nil seen),
            inside,
            stop (rw (av, long, good, short)),
          )
          | inr whole ↦
              let fits : header_size + len ≤ length p.buffer - p.consumed = ltb→le _ _ whole in
              rw (long, good, whole)
                (Loop-extend p seen (feed_loop fuel (behind p) (seen ++ (packet_at p ∷ [])))
                  (start_of-unread p (omega arith) good)
                  (feed_loop-Loop fuel (behind p) (seen ++ (packet_at p ∷ [])) (omega arith)
                    (omega arith)))
        ]
      ]
    ]

-- `Compact` keeps the unread bytes, the limit, and the position inside the buffer.
pub compact-unread :
    (p : PacketFrameParser)
    → p.consumed ≤ length p.buffer
    → (unread (compact p) ≡ unread p)
      × ((compact p).max_body_length ≡ p.max_body_length)
      × ((compact p).consumed ≤ length (compact p).buffer)
unfolding compact
compact-unread p inside = elim (Bool-cases (p.consumed == 0)) [
  | inl zero_consumed ↦ rw zero_consumed (refl, refl, inside)
  | inr some_consumed ↦ elim (Bool-cases (p.consumed == length p.buffer)) [
    | inl all_consumed ↦
        let e : p.consumed ≡ length p.buffer = ground arith in
        let nothing_left : drop p.consumed p.buffer ≡ [] =
          ap (λ (k : ℕ). drop k p.buffer) e ∙ drop-length p.buffer in
        rw (some_consumed, all_consumed) (sym nothing_left, refl, omega arith)
    | inr part ↦ elim (Bool-cases (ltb 4096 p.consumed || leb (length p.buffer) (p.consumed * 2))) [
      | inl large ↦ rw (some_consumed, part, large) (refl, refl, omega arith)
      | inr small ↦ rw (some_consumed, part, small) (refl, refl, inside)
    ]
  ]
]

-- What one call of `Feed` does to a stream: it hands out the packets that the unread bytes and the
-- new ones hold, keeps what is left, and refuses exactly a broken stream.
pub record FeedsStream (p : PacketFrameParser) (bytes : List ℕ) (fed : Fed) : Type 0 where
  pub limit : fed.parser.max_body_length ≡ p.max_body_length
  pub inside : fed.parser.consumed ≤ length fed.parser.buffer
  pub stream :
      Frames p.max_body_length
        (unread p ++ bytes)
        fed.packets
        (if fed.accepted then some (unread fed.parser) else none)

abbrev buffering : PacketFrameParser → List ℕ → PacketFrameParser
buffering p bytes = record p { buffer = p.buffer ++ bytes }

feed_of-Loop :
    (p : PacketFrameParser) (bytes : List ℕ) (end : LoopEnd)
    → p.consumed ≤ length p.buffer
    → Loop (buffering p bytes) [] end
    → (fed : Fed) × (fed_of end ≡ some fed) × FeedsStream p bytes fed
feed_of-Loop p bytes end inside (inl (c, ps, e, within, f)) =
    let q : PacketFrameParser = record (buffering p bytes) { consumed = c } in
    let (same, limit, room) = compact-unread q within in
    let fed : Fed = record { accepted = true; packets = ps; parser = compact q } in
    (
      fed,
      rw e,
      record {
        limit = limit;
        inside = room;
        stream = rw (drop-prefix p.consumed p.buffer bytes inside, ← same) at f;
      },
    )
feed_of-Loop p bytes end inside (inr (ps, e, f)) =
    let q : PacketFrameParser = record p { buffer = []; consumed = 0 } in
    let fed : Fed = record { accepted = false; packets = ps; parser = q } in
    (
      fed,
      rw e,
      record {
        limit = refl;
        inside = omega arith;
        stream = rw (drop-prefix p.consumed p.buffer bytes inside) at f;
      },
    )

-- A call of `Feed` ends. It hands out the packets that the unread bytes and the new ones hold, in
-- order, keeps what is left of them, and is refused just where the stream has a body length that
-- is not accepted. The parser's position is inside its buffer before the call and after it.
pub feed-FeedsStream :
    (p : PacketFrameParser) (bytes : List ℕ)
    → p.consumed ≤ length p.buffer
    → (fed : Fed) × (feed p bytes ≡ some fed) × FeedsStream p bytes fed
unfolding feed
feed-FeedsStream p bytes inside =
    let q = buffering p bytes in
    feed_of-Loop p bytes (feed_loop (suc (length q.buffer)) q []) inside (
      feed_loop-Loop (suc (length q.buffer)) q [] (omega (arith, length-append p.buffer bytes))
        (omega arith))

feed-some :
    (p : PacketFrameParser) (bytes : List ℕ) (fed : Fed)
    → p.consumed ≤ length p.buffer
    → feed p bytes ≡ some fed
    → FeedsStream p bytes fed
feed-some p bytes fed inside e =
    let (fed', e', s) = feed-FeedsStream p bytes inside in
    let same : fed' ≡ fed = cc in subst (λ x. FeedsStream p bytes x) same s

same_end :
    (b c : Bool) (u v : List ℕ)
    → (if b then some u else none) ≡ (if c then some v else none)
    → b ≡ c
same_end true true u v e = refl
same_end true false u v e = cc
same_end false true u v e = cc
same_end false false u v e = refl

-- What a call leaves unread; nothing where the stream was refused.
abbrev pub left_of : Fed → Option (List ℕ)
left_of fed = if fed.accepted then some (unread fed.parser) else none

-- Cutting the stream elsewhere changes nothing: a call on one chunk that is accepted, then a call
-- on a second chunk, hand out together the packets that one call on both chunks hands out. That
-- call is accepted just where the second one is, and leaves the same bytes unread. The position of
-- the first parser is inside its buffer.
pub feed-append :
    (p : PacketFrameParser) (front back : List ℕ) (first second whole : Fed)
    → p.consumed ≤ length p.buffer
    → feed p front ≡ some first
    → first.accepted ≡ true
    → feed first.parser back ≡ some second
    → feed p (front ++ back) ≡ some whole
    → (whole.packets ≡ first.packets ++ second.packets)
      × (whole.accepted ≡ second.accepted)
      × (left_of whole ≡ left_of second)
feed-append p front back first second whole inside e accepted f g =
    let one = feed-some p front first inside e in
    let two = feed-some first.parser back second one.inside f in
    let all = feed-some p (front ++ back) whole inside g in
    let after_one : Frames p.max_body_length (unread p ++ front) first.packets
        (some (unread first.parser)) =
      rw accepted at one.stream in
    let joined = Frames-append back after_one refl (rw one.limit at two.stream) in
    let (packets, ends) =
      Frames-unique all.stream joined (sym (append_assoc (unread p) front back)) in
    let accepts =
      same_end whole.accepted second.accepted (unread whole.parser) (unread second.parser) ends in
    (packets, accepts, ends)

-- After an accepted call the parser holds fewer unread bytes than a frame of the largest size,
-- where its position was inside its buffer.
pub feed-buffered :
    (p : PacketFrameParser) (bytes : List ℕ) (fed : Fed)
    → p.consumed ≤ length p.buffer
    → feed p bytes ≡ some fed
    → fed.accepted ≡ true
    → buffered fed.parser < header_size + p.max_body_length
feed-buffered p bytes fed inside e accepted =
    let whole = feed-some p bytes fed inside e in
    let left = length-drop fed.parser.consumed fed.parser.buffer in
    omega (arith, left, Frames-rest_short (rw accepted at whole.stream) refl)
