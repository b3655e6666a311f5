-- ===== src/Samples/Client/Packets.antt =====
-- samples/CppClient/packets.hpp: the packets of the client, their formatters, and DispatchPacket. An
-- array member and the member that counts its items stand together, as a FixedArray.
pub mod Fixed
pub mod Types
pub mod Laws
use memory_pack_cpp.Base.{
  ℕ, Bool, false, List, [], ◌∷◌, replicate, ◌==◌, if◌then◌else◌, Option, none, some,
}
use memory_pack_cpp.Outcome.{pure, ◌>>=◌}
use memory_pack_cpp.Reader.{Read}
use memory_pack_cpp.Reader.Headers.{read_object_header}
use memory_pack_cpp.Format.{Formatter, object}
use memory_pack_cpp.Format.Primitives.{
  bool_formatter, byte_formatter, number_formatter, string_formatter,
}
use memory_pack_cpp.Format.Collections.{vector_formatter}
use memory_pack_cpp.Format.Vectors.{number_vector_formatter}
use memory_pack_cpp.Format.Arrays.{FixedArray, fixed_array_formatter}
use memory_pack_cpp.Format.Objects.{
  Member, member, read_members, serialize_object, object_formatter,
}
use memory_pack_cpp.Samples.Client.Packets.Types.{
  LoginRequest, LoginResponse, PlayerState, ScoreUpdate, ChatMessage, InventoryData, BufferData,
  IntArrayPacket, SkillSlotData, MapTileRow, MixedFormatPacket, login_request_id, login_response_id,
  player_state_id, score_update_id, chat_message_id, inventory_data_id, buffer_data_id,
  int_array_packet_id, skill_slot_data_id, map_tile_row_id, mixed_format_packet_id,
}
use memory_pack_cpp.Api.{Result, value, exception, undefined, deserialize}

-- All cells are 0, and none is in use.
abbrev pub no_items : ℕ → FixedArray
no_items max = record { cells = replicate max 0; count = 0 }

abbrev pub login_request_members : List (Member LoginRequest)
login_request_members =
    member string_formatter (λ p. p.username) (λ v p. record p { username = v })
    ∷ member (number_formatter 4) (λ p. p.level) (λ v p. record p { level = v })
    ∷ []

abbrev pub login_response_members : List (Member LoginResponse)
login_response_members =
    member bool_formatter (λ p. p.success) (λ v p. record p { success = v })
    ∷ member (number_formatter 4) (λ p. p.player_id) (λ v p. record p { player_id = v })
    ∷ member string_formatter (λ p. p.message) (λ v p. record p { message = v })
    ∷ []

abbrev pub player_state_members : List (Member PlayerState)
player_state_members =
    member (number_formatter 4) (λ p. p.player_id) (λ v p. record p { player_id = v })
    ∷ member (number_formatter 4) (λ p. p.pos_x) (λ v p. record p { pos_x = v })
    ∷ member (number_formatter 4) (λ p. p.pos_y) (λ v p. record p { pos_y = v })
    ∷ member (number_formatter 4) (λ p. p.pos_z) (λ v p. record p { pos_z = v })
    ∷ member string_formatter (λ p. p.name) (λ v p. record p { name = v })
    ∷ []

abbrev pub score_update_members : List (Member ScoreUpdate)
score_update_members =
    member (number_formatter 4) (λ p. p.player_id) (λ v p. record p { player_id = v })
    ∷ member (number_vector_formatter 4) (λ p. p.scores) (λ v p. record p { scores = v })
    ∷ member (number_formatter 8) (λ p. p.total_score) (λ v p. record p { total_score = v })
    ∷ []

abbrev pub chat_message_members : List (Member ChatMessage)
chat_message_members =
    member (number_formatter 4) (λ p. p.sender_id) (λ v p. record p { sender_id = v })
    ∷ member string_formatter (λ p. p.message) (λ v p. record p { message = v })
    ∷ member (number_formatter 8) (λ p. p.timestamp) (λ v p. record p { timestamp = v })
    ∷ []

abbrev pub inventory_data_members : List (Member InventoryData)
inventory_data_members =
    member (number_formatter 4) (λ p. p.player_id) (λ v p. record p { player_id = v })
    ∷ member (vector_formatter string_formatter) (λ p. p.item_names)
        (λ v p. record p { item_names = v })
    ∷ member (number_vector_formatter 4) (λ p. p.item_counts) (λ v p. record p { item_counts = v })
    ∷ []

abbrev pub buffer_data_members : List (Member BufferData)
buffer_data_members =
    member byte_formatter (λ p. p.tag) (λ v p. record p { tag = v })
    ∷ member byte_formatter (λ p. p.grade) (λ v p. record p { grade = v })
    ∷ member (number_vector_formatter 1) (λ p. p.raw_data) (λ v p. record p { raw_data = v })
    ∷ member (number_vector_formatter 1) (λ p. p.char_codes) (λ v p. record p { char_codes = v })
    ∷ []

abbrev pub int_array_packet_members : List (Member IntArrayPacket)
int_array_packet_members =
    member (number_formatter 4) (λ p. p.id) (λ v p. record p { id = v })
    ∷ member (number_vector_formatter 2) (λ p. p.short_array) (λ v p. record p { short_array = v })
    ∷ member (number_vector_formatter 4) (λ p. p.int_array) (λ v p. record p { int_array = v })
    ∷ member (number_vector_formatter 8) (λ p. p.long_array) (λ v p. record p { long_array = v })
    ∷ []

abbrev pub skill_slot_data_members : List (Member SkillSlotData)
skill_slot_data_members =
    member (number_formatter 4) (λ p. p.player_id) (λ v p. record p { player_id = v })
    ∷ member (fixed_array_formatter 4 8) (λ p. p.skills) (λ v p. record p { skills = v })
    ∷ member (fixed_array_formatter 4 8) (λ p. p.cooldowns) (λ v p. record p { cooldowns = v })
    ∷ []

abbrev pub map_tile_row_members : List (Member MapTileRow)
map_tile_row_members =
    member (number_formatter 4) (λ p. p.row_index) (λ v p. record p { row_index = v })
    ∷ member (fixed_array_formatter 1 64) (λ p. p.tiles) (λ v p. record p { tiles = v })
    ∷ member (fixed_array_formatter 2 64) (λ p. p.heights) (λ v p. record p { heights = v })
    ∷ []

abbrev pub mixed_format_packet_members : List (Member MixedFormatPacket)
mixed_format_packet_members =
    member (number_formatter 4) (λ p. p.id) (λ v p. record p { id = v })
    ∷ member (number_vector_formatter 4) (λ p. p.dynamic_scores)
        (λ v p. record p { dynamic_scores = v })
    ∷ member (fixed_array_formatter 4 4) (λ p. p.fixed_bonuses)
        (λ v p. record p { fixed_bonuses = v })
    ∷ member (fixed_array_formatter 1 16) (λ p. p.tag_bytes) (λ v p. record p { tag_bytes = v })
    ∷ member (number_formatter 8) (λ p. p.multiplier) (λ v p. record p { multiplier = v })
    ∷ []

-- The Deserialize of the IMemoryPackable specializations that are written out: it has no depth, and a
-- null object leaves the value as it was.
unfoldable pub deserialize_plain : {T : Type 0} → List (Member T) → T → Read T
deserialize_plain members old = do
  header ← read_object_header
  if header.is_null then pure old else read_members header.count 0 members old

abbrev pub plain_formatter : {T : Type 0} → T → List (Member T) → Formatter T
plain_formatter init members = record {
  kind = object;
  init = init;
  serialize = λ v. serialize_object members (some v);
  deserialize = deserialize_plain members;
}

-- MEMORYPACK_DEFINE, or the specialization of IMemoryPackable, for each.
abbrev pub login_request_formatter : Formatter LoginRequest
login_request_formatter =
    object_formatter (record { username = []; level = 0 }) login_request_members

abbrev pub login_response_formatter : Formatter LoginResponse
login_response_formatter =
    object_formatter (record { success = false; player_id = 0; message = [] })
      login_response_members

abbrev pub player_state_formatter : Formatter PlayerState
player_state_formatter =
    object_formatter (record { player_id = 0; pos_x = 0; pos_y = 0; pos_z = 0; name = [] })
      player_state_members

abbrev pub score_update_formatter : Formatter ScoreUpdate
score_update_formatter =
    object_formatter (record { player_id = 0; scores = []; total_score = 0 }) score_update_members

abbrev pub chat_message_formatter : Formatter ChatMessage
chat_message_formatter =
    object_formatter (record { sender_id = 0; message = []; timestamp = 0 }) chat_message_members

abbrev pub inventory_data_formatter : Formatter InventoryData
inventory_data_formatter =
    object_formatter (record { player_id = 0; item_names = []; item_counts = [] })
      inventory_data_members

abbrev pub buffer_data_formatter : Formatter BufferData
buffer_data_formatter =
    object_formatter (record { tag = 0; grade = 0; raw_data = []; char_codes = [] })
      buffer_data_members

abbrev pub int_array_packet_formatter : Formatter IntArrayPacket
int_array_packet_formatter =
    object_formatter (record { id = 0; short_array = []; int_array = []; long_array = [] })
      int_array_packet_members

abbrev pub skill_slot_data_formatter : Formatter SkillSlotData
skill_slot_data_formatter =
    plain_formatter (record { player_id = 0; skills = no_items 8; cooldowns = no_items 8 })
      skill_slot_data_members

abbrev pub map_tile_row_formatter : Formatter MapTileRow
map_tile_row_formatter =
    plain_formatter (record { row_index = 0; tiles = no_items 64; heights = no_items 64 })
      map_tile_row_members

abbrev pub mixed_format_packet_formatter : Formatter MixedFormatPacket
mixed_format_packet_formatter =
    plain_formatter
      (record {
        id = 0;
        dynamic_scores = [];
        fixed_bonuses = no_items 4;
        tag_bytes = no_items 16;
        multiplier = 0;
      })
      mixed_format_packet_members

-- What the handler of DispatchPacket is called with.
pub data Message : Type 0 where
  of_login_request : LoginRequest → Message
  of_login_response : LoginResponse → Message
  of_player_state : PlayerState → Message
  of_score_update : ScoreUpdate → Message
  of_chat_message : ChatMessage → Message
  of_inventory_data : InventoryData → Message
  of_buffer_data : BufferData → Message
  of_int_array_packet : IntArrayPacket → Message
  of_skill_slot_data : SkillSlotData → Message
  of_map_tile_row : MapTileRow → Message
  of_mixed_format_packet : MixedFormatPacket → Message

abbrev pub handled : {A : Type 0} → (A → Message) → Result A → Result (Option Message)
handled f (value v) = value (some (f v))
handled f (exception e) = exception e
handled f undefined = undefined

-- bool DispatchPacket(PacketId id, std::span<const uint8_t> body, Handler&& handler); `none` is false.
unfoldable pub dispatch_packet : Bool → ℕ → List ℕ → Result (Option Message)
unfolding deserialize
dispatch_packet exceptions id body =
    if id == login_request_id
    then handled of_login_request (deserialize exceptions login_request_formatter body)
    else if id == login_response_id
    then handled of_login_response (deserialize exceptions login_response_formatter body)
    else if id == player_state_id
    then handled of_player_state (deserialize exceptions player_state_formatter body)
    else if id == score_update_id
    then handled of_score_update (deserialize exceptions score_update_formatter body)
    else if id == chat_message_id
    then handled of_chat_message (deserialize exceptions chat_message_formatter body)
    else if id == inventory_data_id
    then handled of_inventory_data (deserialize exceptions inventory_data_formatter body)
    else if id == buffer_data_id
    then handled of_buffer_data (deserialize exceptions buffer_data_formatter body)
    else if id == int_array_packet_id
    then handled of_int_array_packet (deserialize exceptions int_array_packet_formatter body)
    else if id == skill_slot_data_id
    then handled of_skill_slot_data (deserialize exceptions skill_slot_data_formatter body)
    else if id == map_tile_row_id
    then handled of_map_tile_row (deserialize exceptions map_tile_row_formatter body)
    else if id == mixed_format_packet_id
    then handled of_mixed_format_packet (deserialize exceptions mixed_format_packet_formatter body)
    else value none
