-- ===== src/Samples/Chat/Packets.antt =====
-- samples/ChatClientConsole/packets.hpp: the packets of the chat protocol and their formatters.
pub mod Laws
use memory_pack_cpp.Base.{ℕ, Bool, false, List, [], ◌∷◌}
use memory_pack_cpp.Format.{Formatter}
use memory_pack_cpp.Format.Primitives.{bool_formatter, string_formatter}
use memory_pack_cpp.Format.Collections.{vector_formatter}
use memory_pack_cpp.Format.Objects.{Member, member, object_formatter}

-- enum class PacketId
abbrev pub login_request_id : ℕ
login_request_id = 101

abbrev pub login_response_id : ℕ
login_response_id = 102

abbrev pub room_join_request_id : ℕ
room_join_request_id = 103

abbrev pub room_join_response_id : ℕ
room_join_response_id = 104

abbrev pub room_chat_id : ℕ
room_chat_id = 105

abbrev pub private_chat_id : ℕ
private_chat_id = 106

abbrev pub user_entered_id : ℕ
user_entered_id = 107

abbrev pub user_left_id : ℕ
user_left_id = 108

pub record LoginRequest : Type 0 where
  pub username : List ℕ

pub record LoginResponse : Type 0 where
  pub success : Bool
  pub message : List ℕ

pub record RoomJoinRequest : Type 0 where
  pub room_name : List ℕ

pub record RoomJoinResponse : Type 0 where
  pub success : Bool
  pub existing_users : List (List ℕ)

pub record RoomChat : Type 0 where
  pub sender_name : List ℕ
  pub message : List ℕ

pub record PrivateChat : Type 0 where
  pub sender_name : List ℕ
  pub target_name : List ℕ
  pub message : List ℕ

pub record UserEntered : Type 0 where
  pub username : List ℕ

pub record UserLeft : Type 0 where
  pub username : List ℕ

abbrev pub login_request_members : List (Member LoginRequest)
login_request_members =
    member string_formatter (λ p. p.username) (λ v p. record { username = v }) ∷ []

abbrev pub login_response_members : List (Member LoginResponse)
login_response_members =
    member bool_formatter (λ p. p.success) (λ v p. record p { success = v })
    ∷ member string_formatter (λ p. p.message) (λ v p. record p { message = v })
    ∷ []

abbrev pub room_join_request_members : List (Member RoomJoinRequest)
room_join_request_members =
    member string_formatter (λ p. p.room_name) (λ v p. record { room_name = v }) ∷ []

abbrev pub room_join_response_members : List (Member RoomJoinResponse)
room_join_response_members =
    member bool_formatter (λ p. p.success) (λ v p. record p { success = v })
    ∷ member (vector_formatter string_formatter) (λ p. p.existing_users)
        (λ v p. record p { existing_users = v })
    ∷ []

abbrev pub room_chat_members : List (Member RoomChat)
room_chat_members =
    member string_formatter (λ p. p.sender_name) (λ v p. record p { sender_name = v })
    ∷ member string_formatter (λ p. p.message) (λ v p. record p { message = v })
    ∷ []

abbrev pub private_chat_members : List (Member PrivateChat)
private_chat_members =
    member string_formatter (λ p. p.sender_name) (λ v p. record p { sender_name = v })
    ∷ member string_formatter (λ p. p.target_name) (λ v p. record p { target_name = v })
    ∷ member string_formatter (λ p. p.message) (λ v p. record p { message = v })
    ∷ []

abbrev pub user_entered_members : List (Member UserEntered)
user_entered_members =
    member string_formatter (λ p. p.username) (λ v p. record { username = v }) ∷ []

abbrev pub user_left_members : List (Member UserLeft)
user_left_members = member string_formatter (λ p. p.username) (λ v p. record { username = v }) ∷ []

-- MEMORYPACK_DEFINE for each.
abbrev pub login_request_formatter : Formatter LoginRequest
login_request_formatter = object_formatter (record { username = [] }) login_request_members

abbrev pub login_response_formatter : Formatter LoginResponse
login_response_formatter =
    object_formatter (record { success = false; message = [] }) login_response_members

abbrev pub room_join_request_formatter : Formatter RoomJoinRequest
room_join_request_formatter = object_formatter (record { room_name = [] }) room_join_request_members

abbrev pub room_join_response_formatter : Formatter RoomJoinResponse
room_join_response_formatter =
    object_formatter (record { success = false; existing_users = [] }) room_join_response_members

abbrev pub room_chat_formatter : Formatter RoomChat
room_chat_formatter = object_formatter (record { sender_name = []; message = [] }) room_chat_members

abbrev pub private_chat_formatter : Formatter PrivateChat
private_chat_formatter =
    object_formatter (record { sender_name = []; target_name = []; message = [] })
      private_chat_members

abbrev pub user_entered_formatter : Formatter UserEntered
user_entered_formatter = object_formatter (record { username = [] }) user_entered_members

abbrev pub user_left_formatter : Formatter UserLeft
user_left_formatter = object_formatter (record { username = [] }) user_left_members
