-- ===== src/Samples/Client/Packets/Laws.antt =====
-- samples/CppClient/packets.hpp: the counts of the array members that are received.
use memory_pack_cpp.Base.{
  ℕ, ◌<◌, ◌^◌, Bool, true, false, List, length, ◌==◌, if◌then◌else◌, Option, some, arith,
}
use memory_pack_cpp.Outcome.{Outcome, Ensures, returns, throws}
use memory_pack_cpp.Reader.{Reader, IsValid, new_reader, default_options}
use memory_pack_cpp.Reader.Yields.{Yields, Yields-Safe}
use memory_pack_cpp.Format.{Formatter}
use memory_pack_cpp.Api.{Result, value, undefined, result_of, deserialize}
use memory_pack_cpp.Samples.Client.Packets.Types.{
  login_request_id, login_response_id, player_state_id, score_update_id, chat_message_id,
  inventory_data_id, buffer_data_id, int_array_packet_id, skill_slot_data_id, map_tile_row_id,
  mixed_format_packet_id,
}
use memory_pack_cpp.Samples.Client.Packets.{
  login_request_formatter, login_response_formatter, player_state_formatter, score_update_formatter,
  chat_message_formatter, inventory_data_formatter, buffer_data_formatter,
  int_array_packet_formatter, skill_slot_data_formatter, map_tile_row_formatter,
  mixed_format_packet_formatter, of_login_request, of_login_response, of_player_state,
  of_score_update, of_chat_message, of_inventory_data, of_buffer_data, of_int_array_packet,
  of_skill_slot_data, of_map_tile_row, of_mixed_format_packet, Message, handled, dispatch_packet,
}
use memory_pack_cpp.Samples.Client.Packets.Fixed.{
  login_request-IsSafe, login_response-IsSafe, player_state-IsSafe, score_update-IsSafe,
  chat_message-IsSafe, inventory_data-IsSafe, buffer_data-IsSafe, int_array_packet-IsSafe,
  SkillSlotDataFixed, skill_slot_data-Fixed, MapTileRowFixed, map_tile_row-Fixed,
  MixedFormatPacketFixed, mixed_format_packet-Fixed,
}

-- What a call of DispatchPacket gives: it is defined, and the arrays of the packets that have any hold.
abbrev pub IsReceived : Result (Option Message) → Type 0
IsReceived undefined = ⊥
IsReceived (value (some (of_skill_slot_data p))) = SkillSlotDataFixed p
IsReceived (value (some (of_map_tile_row p))) = MapTileRowFixed p
IsReceived (value (some (of_mixed_format_packet p))) = MixedFormatPacketFixed p
IsReceived _ = Unit {0}

handled-IsReceived :
    {A : Type 0} (P : A → Type 0) (F : Formatter A) (f : A → Message) (exceptions : Bool)
    (body : List ℕ)
    → length body < 2 ^ 64
    → Yields P (F.deserialize F.init)
    → ((a : A) → P a → IsReceived (value (some (f a))))
    → IsReceived (handled f (deserialize exceptions F body))
unfolding deserialize
handled-IsReceived {A = A} P F f exceptions body short h k =
    ended (F.deserialize F.init (new_reader exceptions default_options body)) (
      h (new_reader exceptions default_options body)
        (record { in_bounds = omega arith; fits = short }))
  where
    ended :
        (o : Outcome Reader A)
        → Ensures (λ a s. P a × IsValid s) IsValid o
        → IsReceived (handled f (result_of o (λ v r. v)))
    ended _ (returns {a} q) = k a q.0
    ended _ (throws t) = tt

IsReceived-if :
    (b : Bool) (x y : Result (Option Message))
    → IsReceived x
    → IsReceived y
    → IsReceived (if b then x else y)
IsReceived-if true x y h k = h
IsReceived-if false x y h k = k

-- `DispatchPacket` is defined on any id and any body, whatever its bytes are: it says that the id is
-- unknown, throws, or calls the handler; and in what the handler gets, the counts of the array members
-- are within the arrays. Bodies are shorter than 2^64 bytes.
pub dispatch_packet-IsReceived :
    (exceptions : Bool) (id : ℕ) (body : List ℕ)
    → length body < 2 ^ 64
    → IsReceived (dispatch_packet exceptions id body)
unfolding dispatch_packet
dispatch_packet-IsReceived exceptions id body short =
    IsReceived-if (id == login_request_id) _ _
      (handled-IsReceived (λ _. Unit {0}) login_request_formatter of_login_request exceptions body
        short (Yields-Safe _ (login_request-IsSafe login_request_formatter.init)) (λ a p. tt))
      (IsReceived-if (id == login_response_id) _ _
        (handled-IsReceived (λ _. Unit {0}) login_response_formatter of_login_response exceptions
          body short (Yields-Safe _ (login_response-IsSafe login_response_formatter.init))
          (λ a p. tt))
        (IsReceived-if (id == player_state_id) _ _
          (handled-IsReceived (λ _. Unit {0}) player_state_formatter of_player_state exceptions body
            short (Yields-Safe _ (player_state-IsSafe player_state_formatter.init)) (λ a p. tt))
          (IsReceived-if (id == score_update_id) _ _
            (handled-IsReceived (λ _. Unit {0}) score_update_formatter of_score_update exceptions
              body short (Yields-Safe _ (score_update-IsSafe score_update_formatter.init))
              (λ a p. tt))
            (IsReceived-if (id == chat_message_id) _ _
              (handled-IsReceived (λ _. Unit {0}) chat_message_formatter of_chat_message exceptions
                body short (Yields-Safe _ (chat_message-IsSafe chat_message_formatter.init))
                (λ a p. tt))
              (IsReceived-if (id == inventory_data_id) _ _
                (handled-IsReceived (λ _. Unit {0}) inventory_data_formatter of_inventory_data
                  exceptions body short
                  (Yields-Safe _ (inventory_data-IsSafe inventory_data_formatter.init)) (λ a p. tt))
                (IsReceived-if (id == buffer_data_id) _ _
                  (handled-IsReceived (λ _. Unit {0}) buffer_data_formatter of_buffer_data
                    exceptions body short
                    (Yields-Safe _ (buffer_data-IsSafe buffer_data_formatter.init)) (λ a p. tt))
                  (IsReceived-if (id == int_array_packet_id) _ _
                    (handled-IsReceived (λ _. Unit {0}) int_array_packet_formatter
                      of_int_array_packet exceptions body short
                      (Yields-Safe _ (int_array_packet-IsSafe int_array_packet_formatter.init))
                      (λ a p. tt))
                    (IsReceived-if (id == skill_slot_data_id) _ _
                      (handled-IsReceived SkillSlotDataFixed skill_slot_data_formatter
                        of_skill_slot_data exceptions body short skill_slot_data-Fixed (λ a p. p))
                      (IsReceived-if (id == map_tile_row_id) _ _
                        (handled-IsReceived MapTileRowFixed map_tile_row_formatter of_map_tile_row
                          exceptions body short map_tile_row-Fixed (λ a p. p))
                        (IsReceived-if (id == mixed_format_packet_id) _ _
                          (handled-IsReceived MixedFormatPacketFixed mixed_format_packet_formatter
                            of_mixed_format_packet exceptions body short mixed_format_packet-Fixed
                            (λ a p. p))
                          tt))))))))))
