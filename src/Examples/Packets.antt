-- ===== src/Examples/Packets.antt =====
-- include/memorypack/packet.hpp: a packet that arrives in two chunks.
use memory_pack_cpp.Base.{ℕ, ◌≡◌, refl, true, List, [], ◌∷◌, ◌++◌, some, arith}
use memory_pack_cpp.Packet.{Fed, new_parser, feed}
use memory_pack_cpp.Packet.Feed.{unread, left_of, FeedsStream, feed-append, feed-FeedsStream}
use memory_pack_cpp.Packet.Stream.{start_of}
use memory_pack_cpp.Packet.Delivered.{feed-delivers}

-- Packet 1 with the body 9 8, cut inside its header, and the first byte of another one.
abbrev front : List ℕ
front = 1 ∷ 0 ∷ 2 ∷ []

abbrev back : List ℕ
back = 0 ∷ 0 ∷ 0 ∷ 9 ∷ 8 ∷ 4 ∷ []

abbrev first : Fed
first = record {
  accepted = true;
  packets = [];
  parser = record { buffer = front; consumed = 0; max_body_length = 100 };
}

abbrev second : Fed
second = record {
  accepted = true;
  packets = (1, 9 ∷ 8 ∷ []) ∷ [];
  parser = record { buffer = 4 ∷ []; consumed = 0; max_body_length = 100 };
}

feed-append_example :
    (second.packets ≡ first.packets ++ second.packets)
    × (second.accepted ≡ second.accepted)
    × (left_of second ≡ left_of second)
unfolding feed
feed-append_example =
    feed-append (new_parser 100) front back first second second (omega arith) refl refl refl refl

feed-FeedsStream_example :
    (fed : Fed) × (feed (new_parser 100) back ≡ some fed) × FeedsStream (new_parser 100) back fed
feed-FeedsStream_example = feed-FeedsStream (new_parser 100) back (omega arith)

-- The packet cut inside its header, in two steps: what the parser holds, and the rest with one byte more.
feed-delivers_example :
    (fed : Fed) × (feed first.parser back ≡ some fed)
    × (fed.accepted ≡ true)
    × (fed.packets ≡ (1, 9 ∷ 8 ∷ []) ∷ [])
    × (unread fed.parser ≡ 4 ∷ [])
unfolding start_of
feed-delivers_example =
    feed-delivers first.parser back ((1, 9 ∷ 8 ∷ []) ∷ []) (4 ∷ []) (omega arith) (omega arith)
      ((omega arith, omega arith), tt) refl refl
