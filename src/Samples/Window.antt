-- ===== src/Samples/Window.antt =====
-- samples/ChatClient: the network code of the chat client for Windows, and DispatchPacket of its
-- packets.hpp, whose packets are those of samples/ChatClientConsole. The system's `send` and `recv` are
-- parameters as in Samples/Client/Network, and so is what each reading of g_running gives.
pub mod Laws
use memory_pack_cpp.Base.{
  ℕ, zero, suc, Bool, true, false, List, [], ◌∷◌, length, ◌==◌, if◌then◌else◌, Option, none, some,
}
use memory_pack_cpp.Api.{Result, value, exception, undefined, deserialize}
use memory_pack_cpp.Packet.{Packet}
use memory_pack_cpp.Samples.Server.Sending.{Socket}
use memory_pack_cpp.Samples.Client.Network.{Incoming}
use memory_pack_cpp.Samples.Client.Network
use memory_pack_cpp.Samples.Chat.Packets.{
  LoginRequest, LoginResponse, RoomJoinRequest, RoomJoinResponse, RoomChat, PrivateChat,
  UserEntered, UserLeft, login_request_id, login_response_id, room_join_request_id,
  room_join_response_id, room_chat_id, private_chat_id, user_entered_id, user_left_id,
  login_request_formatter, login_response_formatter, room_join_request_formatter,
  room_join_response_formatter, room_chat_formatter, private_chat_formatter, user_entered_formatter,
  user_left_formatter,
}

-- What PostMessageW is called with: WM_NET_PACKET and WM_NET_DISCONNECT.
pub data Posted : Type 0 where
  net_packet : Packet → Posted
  net_disconnect : Posted

-- static bool SendPacket(PacketId id, const std::vector<uint8_t>& body): `connected` says that g_sock is
-- valid; from there the steps of samples/CppClient.
unfoldable pub send_to : (ℕ → ℕ → ℕ) → Bool → ℕ → List ℕ → Socket → Bool × Socket
send_to send connected id body s =
    if connected then Network.send_packet send id body s else (false, s)

module _ (recv : ℕ → ℕ → ℕ) (running : ℕ → Bool) where
  -- static bool RecvPacket(SOCKET s, PacketId& id, std::vector<uint8_t>& body): the steps of
  -- samples/CppClient.
  abbrev pub recv_from : Incoming → Option Packet × Incoming
  recv_from s = Network.recv_packet recv s

  abbrev pub posted : Posted → Option (List Posted) → Option (List Posted)
  posted m none = none
  posted m (some ms) = some (m ∷ ms)

  abbrev pub after_recv :
      (Incoming → Option (List Posted)) → ℕ → Option Packet × Incoming → Option (List Posted)
  after_recv next k (none, s) = if running k then some (net_disconnect ∷ []) else some []
  after_recv next k (some packet, s) = posted (net_packet packet) (next s)

  -- The loop of RecvThread, with the number of readings of g_running; `none` is a want of fuel. Each
  -- round that goes on receives a header at least.
  unfoldable pub recv_rounds : ℕ → ℕ → Incoming → Option (List Posted)
  recv_rounds zero k s = none
  recv_rounds (suc fuel) k s =
      let next = recv_rounds fuel (suc k) in
      if running k then after_recv next (suc k) (recv_from s) else some []

  -- DWORD WINAPI RecvThread(LPVOID): the messages that it posts.
  unfoldable pub recv_thread : Incoming → Option (List Posted)
  unfolding recv_rounds
  recv_thread s = recv_rounds (suc (length s.unread)) 0 s

-- What the handler of DispatchPacket is called with.
pub data ChatMessage : Type 0 where
  of_login_request : LoginRequest → ChatMessage
  of_login_response : LoginResponse → ChatMessage
  of_room_join_request : RoomJoinRequest → ChatMessage
  of_room_join_response : RoomJoinResponse → ChatMessage
  of_room_chat : RoomChat → ChatMessage
  of_private_chat : PrivateChat → ChatMessage
  of_user_entered : UserEntered → ChatMessage
  of_user_left : UserLeft → ChatMessage

abbrev pub handled : {A : Type 0} → (A → ChatMessage) → Result A → Result (Option ChatMessage)
handled f (value v) = value (some (f v))
handled f (exception e) = exception e
handled f undefined = undefined

-- bool DispatchPacket(PacketId id, std::span<const uint8_t> body, Handler&& handler); `none` is false.
unfoldable pub dispatch_chat : Bool → ℕ → List ℕ → Result (Option ChatMessage)
unfolding deserialize
dispatch_chat exceptions id body =
    if id == login_request_id
    then handled of_login_request (deserialize exceptions login_request_formatter body)
    else if id == login_response_id
    then handled of_login_response (deserialize exceptions login_response_formatter body)
    else if id == room_join_request_id
    then handled of_room_join_request (deserialize exceptions room_join_request_formatter body)
    else if id == room_join_response_id
    then handled of_room_join_response (deserialize exceptions room_join_response_formatter body)
    else if id == room_chat_id
    then handled of_room_chat (deserialize exceptions room_chat_formatter body)
    else if id == private_chat_id
    then handled of_private_chat (deserialize exceptions private_chat_formatter body)
    else if id == user_entered_id
    then handled of_user_entered (deserialize exceptions user_entered_formatter body)
    else if id == user_left_id
    then handled of_user_left (deserialize exceptions user_left_formatter body)
    else value none
