-- ===== src/Samples/Chat/Packets/Laws.antt =====
-- samples/ChatClientConsole/packets.hpp: the packets through the laws of the library.
use memory_pack_cpp.Base.{refl, arith}
use memory_pack_cpp.Format.{Lawful, IsSafe}
use memory_pack_cpp.Format.Primitives.{bool-IsSafe, string-Lawful, string-IsSafe, string_formatter}
use memory_pack_cpp.Format.Collections.Laws.{vector-IsSafe}
use memory_pack_cpp.Format.Objects.Laws.{object-IsSafe, object-Lawful}
use memory_pack_cpp.Format.Steady.{IsSteady, string-IsSteady, object-IsSteady}
use memory_pack_cpp.Samples.Chat.Packets.{
  login_request_members, login_response_members, room_join_request_members,
  room_join_response_members, room_chat_members, private_chat_members, user_entered_members,
  user_left_members, login_request_formatter, login_response_formatter, room_join_request_formatter,
  room_join_response_formatter, room_chat_formatter, private_chat_formatter, user_entered_formatter,
  user_left_formatter,
}

-- What the client receives can be read from any input.
pub login_response-IsSafe : IsSafe login_response_formatter
login_response-IsSafe =
    object-IsSafe login_response_formatter.init login_response_members
      (bool-IsSafe, (string-IsSafe, tt))

pub room_join_response-IsSafe : IsSafe room_join_response_formatter
room_join_response-IsSafe =
    object-IsSafe room_join_response_formatter.init room_join_response_members
      (bool-IsSafe, (vector-IsSafe string_formatter string-IsSafe, tt))

pub room_chat-IsSafe : IsSafe room_chat_formatter
room_chat-IsSafe =
    object-IsSafe room_chat_formatter.init room_chat_members (string-IsSafe, (string-IsSafe, tt))

pub private_chat-IsSafe : IsSafe private_chat_formatter
private_chat-IsSafe =
    object-IsSafe private_chat_formatter.init private_chat_members
      (string-IsSafe, (string-IsSafe, (string-IsSafe, tt)))

pub user_entered-IsSafe : IsSafe user_entered_formatter
user_entered-IsSafe =
    object-IsSafe user_entered_formatter.init user_entered_members (string-IsSafe, tt)

pub user_left-IsSafe : IsSafe user_left_formatter
user_left-IsSafe = object-IsSafe user_left_formatter.init user_left_members (string-IsSafe, tt)

-- The encodings of what it sends.
abbrev pub login_request_laws : Lawful login_request_formatter
login_request_laws =
    object-Lawful login_request_formatter.init login_request_members (string-Lawful, tt)
      (omega arith) (λ v old. refl)

abbrev pub room_join_request_laws : Lawful room_join_request_formatter
room_join_request_laws =
    object-Lawful room_join_request_formatter.init room_join_request_members (string-Lawful, tt)
      (omega arith) (λ v old. refl)

abbrev pub room_chat_laws : Lawful room_chat_formatter
room_chat_laws =
    object-Lawful room_chat_formatter.init room_chat_members (string-Lawful, (string-Lawful, tt))
      (omega arith) (λ v old. refl)

abbrev pub private_chat_laws : Lawful private_chat_formatter
private_chat_laws =
    object-Lawful private_chat_formatter.init private_chat_members
      (string-Lawful, (string-Lawful, (string-Lawful, tt))) (omega arith) (λ v old. refl)

-- What it sends can be written, whatever it holds.
pub login_request-IsSteady : IsSteady login_request_formatter
login_request-IsSteady =
    object-IsSteady login_request_formatter.init login_request_members (string-IsSteady, tt)

pub room_join_request-IsSteady : IsSteady room_join_request_formatter
room_join_request-IsSteady =
    object-IsSteady room_join_request_formatter.init room_join_request_members (string-IsSteady, tt)

pub room_chat-IsSteady : IsSteady room_chat_formatter
room_chat-IsSteady =
    object-IsSteady room_chat_formatter.init room_chat_members
      (string-IsSteady, (string-IsSteady, tt))

pub private_chat-IsSteady : IsSteady private_chat_formatter
private_chat-IsSteady =
    object-IsSteady private_chat_formatter.init private_chat_members
      (string-IsSteady, (string-IsSteady, (string-IsSteady, tt)))
