-- ===== src/Samples/Client/Packets/Types.antt =====
-- samples/CppClient/packets.hpp: the packets of the client, by their members.
use memory_pack_cpp.Base.{ℕ, Bool, List}
use memory_pack_cpp.Format.Arrays.{FixedArray}

-- enum class PacketId
abbrev pub login_request_id : ℕ
login_request_id = 1

abbrev pub login_response_id : ℕ
login_response_id = 2

abbrev pub player_state_id : ℕ
player_state_id = 3

abbrev pub score_update_id : ℕ
score_update_id = 4

abbrev pub chat_message_id : ℕ
chat_message_id = 5

abbrev pub inventory_data_id : ℕ
inventory_data_id = 6

abbrev pub buffer_data_id : ℕ
buffer_data_id = 7

abbrev pub int_array_packet_id : ℕ
int_array_packet_id = 8

abbrev pub skill_slot_data_id : ℕ
skill_slot_data_id = 9

abbrev pub map_tile_row_id : ℕ
map_tile_row_id = 10

abbrev pub mixed_format_packet_id : ℕ
mixed_format_packet_id = 11

pub record LoginRequest : Type 0 where
  pub username : List ℕ
  pub level : ℕ

pub record LoginResponse : Type 0 where
  pub success : Bool
  pub player_id : ℕ
  pub message : List ℕ

pub record PlayerState : Type 0 where
  pub player_id : ℕ
  pub pos_x : ℕ
  pub pos_y : ℕ
  pub pos_z : ℕ
  pub name : List ℕ

pub record ScoreUpdate : Type 0 where
  pub player_id : ℕ
  pub scores : List ℕ
  pub total_score : ℕ

pub record ChatMessage : Type 0 where
  pub sender_id : ℕ
  pub message : List ℕ
  pub timestamp : ℕ

pub record InventoryData : Type 0 where
  pub player_id : ℕ
  pub item_names : List (List ℕ)
  pub item_counts : List ℕ

pub record BufferData : Type 0 where
  pub tag : ℕ
  pub grade : ℕ
  pub raw_data : List ℕ
  pub char_codes : List ℕ

pub record IntArrayPacket : Type 0 where
  pub id : ℕ
  pub short_array : List ℕ
  pub int_array : List ℕ
  pub long_array : List ℕ

pub record SkillSlotData : Type 0 where
  pub player_id : ℕ
  pub skills : FixedArray
  pub cooldowns : FixedArray

pub record MapTileRow : Type 0 where
  pub row_index : ℕ
  pub tiles : FixedArray
  pub heights : FixedArray

pub record MixedFormatPacket : Type 0 where
  pub id : ℕ
  pub dynamic_scores : List ℕ
  pub fixed_bonuses : FixedArray
  pub tag_bytes : FixedArray
  pub multiplier : ℕ
