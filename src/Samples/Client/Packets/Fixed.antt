-- ===== src/Samples/Client/Packets/Fixed.antt =====
-- samples/CppClient/packets.hpp: the packets can be read from any input, and the array members of those
-- that have any keep their bounds.
use memory_pack_cpp.Base.{ℕ, suc, List, [], ◌∷◌, All, ltb, arith, length-replicate}
use memory_pack_cpp.Outcome.{Ensures-weaken}
use memory_pack_cpp.Reader.{Read}
use memory_pack_cpp.Reader.Safe.{Safe}
use memory_pack_cpp.Reader.Yields.{Yields, Yields-bind, Yields-pure, Yields-if, Yields-Safe}
use memory_pack_cpp.Reader.Headers.Safe.{read_object_header-Safe}
use memory_pack_cpp.Format.{IsSafe}
use memory_pack_cpp.Format.Primitives.{
  bool-IsSafe, byte-IsSafe, number-IsSafe, string-IsSafe, string_formatter,
}
use memory_pack_cpp.Format.Collections.Laws.{vector-IsSafe}
use memory_pack_cpp.Format.Vectors.Laws.{number_vector-IsSafe}
use memory_pack_cpp.Format.Arrays.Cells.{IsFixed, fixed_array-Yields}
use memory_pack_cpp.Format.Objects.{Member, read_members}
use memory_pack_cpp.Format.Objects.Laws.{object-IsSafe}
use memory_pack_cpp.Samples.Client.Packets.Types.{SkillSlotData, MapTileRow, MixedFormatPacket}
use memory_pack_cpp.Samples.Client.Packets.{
  login_request_members, login_response_members, player_state_members, score_update_members,
  chat_message_members, inventory_data_members, buffer_data_members, int_array_packet_members,
  skill_slot_data_members, map_tile_row_members, mixed_format_packet_members,
  login_request_formatter, login_response_formatter, player_state_formatter, score_update_formatter,
  chat_message_formatter, inventory_data_formatter, buffer_data_formatter,
  int_array_packet_formatter, skill_slot_data_formatter, map_tile_row_formatter,
  mixed_format_packet_formatter, no_items, deserialize_plain,
}

module _ {T : Type 0} (P : T → Type 0) where
  -- Assigning what is read to a member keeps `P`.
  abbrev Keeps : Member T → Type 0
  Keeps m = (v : T) → P v → Yields (λ x. P (m.set x v)) (m.format.deserialize (m.get v))

  read_members-Yields :
      (count index : ℕ) (ms : List (Member T)) (v : T)
      → All Keeps ms
      → P v
      → Yields P (read_members count index ms v)
  unfolding read_members
  read_members-Yields count index [] v h p = Yields-pure v p
  read_members-Yields count index (m ∷ ms) v h p =
      Yields-if (ltb index count) _ _
        (Yields-bind (m.format.deserialize (m.get v)) _ (h.0 v p)
          (λ x q. read_members-Yields count (suc index) ms (m.set x v) h.1 q))
        (read_members-Yields count (suc index) ms v h.1 p)

  deserialize_plain-Yields :
      (ms : List (Member T)) (old : T) → All Keeps ms → P old → Yields P (deserialize_plain ms old)
  unfolding deserialize_plain
  deserialize_plain-Yields ms old h p =
      Yields-bind _ _ (Yields-Safe _ read_object_header-Safe) λ header _.
        Yields-if header.is_null _ _ (Yields-pure old p)
          (read_members-Yields header.count 0 ms old h p)

-- A read whose value does not matter.
Yields-same : {A Q : Type 0} (m : Read A) → Safe m → Q → Yields (λ _. Q) m
Yields-same m h q r valid = Ensures-weaken (Yields-Safe m h r valid) (λ _ s k. (q, k.1)) (λ s k. k)

pub login_request-IsSafe : IsSafe login_request_formatter
login_request-IsSafe =
    object-IsSafe login_request_formatter.init login_request_members
      (string-IsSafe, (number-IsSafe 4, tt))

pub login_response-IsSafe : IsSafe login_response_formatter
login_response-IsSafe =
    object-IsSafe login_response_formatter.init login_response_members
      (bool-IsSafe, (number-IsSafe 4, (string-IsSafe, tt)))

pub player_state-IsSafe : IsSafe player_state_formatter
player_state-IsSafe =
    object-IsSafe player_state_formatter.init player_state_members (
      number-IsSafe 4,
      (number-IsSafe 4, (number-IsSafe 4, (number-IsSafe 4, (string-IsSafe, tt)))),
    )

pub score_update-IsSafe : IsSafe score_update_formatter
score_update-IsSafe =
    object-IsSafe score_update_formatter.init score_update_members
      (number-IsSafe 4, (number_vector-IsSafe 4, (number-IsSafe 8, tt)))

pub chat_message-IsSafe : IsSafe chat_message_formatter
chat_message-IsSafe =
    object-IsSafe chat_message_formatter.init chat_message_members
      (number-IsSafe 4, (string-IsSafe, (number-IsSafe 8, tt)))

pub inventory_data-IsSafe : IsSafe inventory_data_formatter
inventory_data-IsSafe =
    object-IsSafe inventory_data_formatter.init inventory_data_members (
      number-IsSafe 4,
      (vector-IsSafe string_formatter string-IsSafe, (number_vector-IsSafe 4, tt)),
    )

pub buffer_data-IsSafe : IsSafe buffer_data_formatter
buffer_data-IsSafe =
    object-IsSafe buffer_data_formatter.init buffer_data_members
      (byte-IsSafe, (byte-IsSafe, (number_vector-IsSafe 1, (number_vector-IsSafe 1, tt))))

pub int_array_packet-IsSafe : IsSafe int_array_packet_formatter
int_array_packet-IsSafe = object-IsSafe int_array_packet_formatter.init int_array_packet_members (
  number-IsSafe 4,
  (number_vector-IsSafe 2, (number_vector-IsSafe 4, (number_vector-IsSafe 8, tt))),
)

no_items-Fixed : (max : ℕ) → IsFixed max (no_items max)
no_items-Fixed max = record { all_cells = length-replicate {A = ℕ} max 0; few = omega arith }

-- The arrays of a packet have all their cells, and counts within them.
abbrev pub SkillSlotDataFixed : SkillSlotData → Type 0
SkillSlotDataFixed p = IsFixed 8 p.skills × IsFixed 8 p.cooldowns

pub skill_slot_data-Fixed :
    Yields SkillSlotDataFixed (skill_slot_data_formatter.deserialize skill_slot_data_formatter.init)
skill_slot_data-Fixed =
    deserialize_plain-Yields SkillSlotDataFixed skill_slot_data_members
      skill_slot_data_formatter.init
      (
        λ v p. Yields-same _ (number-IsSafe 4 0) p,
        (
          λ v p r valid.
              Ensures-weaken (fixed_array-Yields 4 8 v.skills p.0.all_cells r valid)
                (λ x s q'. (let q = q'.0 in (q, p.1), q'.1)) (λ s q. q),
          (
            λ v p r valid.
                Ensures-weaken (fixed_array-Yields 4 8 v.cooldowns p.1.all_cells r valid)
                  (λ x s q'. (let q = q'.0 in (p.0, q), q'.1)) (λ s q. q),
            tt,
          ),
        ),
      )
      (no_items-Fixed 8, no_items-Fixed 8)

abbrev pub MapTileRowFixed : MapTileRow → Type 0
MapTileRowFixed p = IsFixed 64 p.tiles × IsFixed 64 p.heights

pub map_tile_row-Fixed :
    Yields MapTileRowFixed (map_tile_row_formatter.deserialize map_tile_row_formatter.init)
map_tile_row-Fixed =
    deserialize_plain-Yields MapTileRowFixed map_tile_row_members map_tile_row_formatter.init
      (
        λ v p. Yields-same _ (number-IsSafe 4 0) p,
        (
          λ v p r valid.
              Ensures-weaken (fixed_array-Yields 1 64 v.tiles p.0.all_cells r valid)
                (λ x s q'. (let q = q'.0 in (q, p.1), q'.1)) (λ s q. q),
          (
            λ v p r valid.
                Ensures-weaken (fixed_array-Yields 2 64 v.heights p.1.all_cells r valid)
                  (λ x s q'. (let q = q'.0 in (p.0, q), q'.1)) (λ s q. q),
            tt,
          ),
        ),
      )
      (no_items-Fixed 64, no_items-Fixed 64)

abbrev pub MixedFormatPacketFixed : MixedFormatPacket → Type 0
MixedFormatPacketFixed p = IsFixed 4 p.fixed_bonuses × IsFixed 16 p.tag_bytes

pub mixed_format_packet-Fixed :
    Yields MixedFormatPacketFixed
      (mixed_format_packet_formatter.deserialize mixed_format_packet_formatter.init)
mixed_format_packet-Fixed =
    deserialize_plain-Yields MixedFormatPacketFixed mixed_format_packet_members
      mixed_format_packet_formatter.init
      (
        λ v p. Yields-same _ (number-IsSafe 4 0) p,
        (
          λ v p. Yields-same _ (number_vector-IsSafe 4 []) p,
          (
            λ v p r valid.
                Ensures-weaken (fixed_array-Yields 4 4 v.fixed_bonuses p.0.all_cells r valid)
                  (λ x s q'. (let q = q'.0 in (q, p.1), q'.1)) (λ s q. q),
            (
              λ v p r valid.
                  Ensures-weaken (fixed_array-Yields 1 16 v.tag_bytes p.1.all_cells r valid)
                    (λ x s q'. (let q = q'.0 in (p.0, q), q'.1)) (λ s q. q),
              (λ v p. Yields-same _ (number-IsSafe 8 0) p, tt),
            ),
          ),
        ),
      )
      (no_items-Fixed 4, no_items-Fixed 16)
