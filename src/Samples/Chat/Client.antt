-- ===== src/Samples/Chat/Client.antt =====
-- samples/ChatClientConsole/main.cpp, class ChatClient and the loop of main: the two threads of the
-- client, in steps that one of them takes at a time. The system's `send` is a parameter, as in
-- Samples/Server/Sending. A line of output is given by what it says.
pub mod Calm
pub mod Ends
pub mod Sent
use memory_pack_cpp.Base.{
  ℕ, ◌*◌, Bool, true, false, not, List, [], ◌∷◌, ◌++◌, ◌==◌, ◌&&◌, if◌then◌else◌, Option, none,
  some,
}
use memory_pack_cpp.Outcome.{
  MemoryPackError, Outcome, returned, thrown, fault, Action, pure, ◌>>=◌, ◌>>◌,
}
use memory_pack_cpp.Reader.{ReaderOptions, new_reader}
use memory_pack_cpp.Reader
use memory_pack_cpp.Writer.{Writer}
use memory_pack_cpp.Format.{Formatter}
use memory_pack_cpp.Packet.{PacketFrameParser, Packet, new_parser, feed, write_packet}
use memory_pack_cpp.Samples.Server.Sending.{Socket, send_all}
use memory_pack_cpp.Samples.Chat.Packets.{
  login_request_id, login_response_id, room_join_request_id, room_join_response_id, room_chat_id,
  private_chat_id, user_entered_id, user_left_id, LoginResponse, RoomJoinResponse, RoomChat,
  PrivateChat, UserEntered, UserLeft, login_request_formatter, login_response_formatter,
  room_join_request_formatter, room_join_response_formatter, room_chat_formatter,
  private_chat_formatter, user_entered_formatter, user_left_formatter,
}
use memory_pack_cpp.Samples.Chat.Commands.{
  Command, nothing, quit, join_usage, whisper_usage, join, chat, whisper, command,
}

-- MAX_BODY_LENGTH
abbrev pub max_body_length : ℕ
max_body_length = 64 * 1024

-- memorypack::ReaderOptions MakeReaderLimits()
abbrev pub reader_limits : ReaderOptions
reader_limits = record { max_collection_length = 1024; max_string_length = 4096; max_depth = 8 }

-- What Print is given.
pub data Line : Type 0 where
  commands logged_in malformed violates closed disconnected usage_join usage_whisper : Line
  login_rejected : List ℕ → Line
  joined_room : List (List ℕ) → Line
  room_message : List ℕ → List ℕ → Line
  private_message : List ℕ → List ℕ → List ℕ → Line
  entered left : List ℕ → Line
  unexpected : ℕ → Line
  decode_failed : MemoryPackError → Line

-- Where the main thread is: before the first packets, at std::getline, in Stop with what
-- running_.exchange(false) gave, and behind Stop.
pub data Phase : Type 0 where
  greeting typing stopped : Phase
  stopping : Bool → Phase

-- A step of the client: the main thread sends its first packets, reads a line, finds the end of its
-- input, or gets past the join of Stop; `recv` gives the receive thread a chunk, or 0 or an error.
pub data Event : Type 0 where
  greets input_ended joins receive_ended : Event
  typed received : List ℕ → Event

-- class ChatClient, the room of main, and where the two threads are: `receiving` says that the receive
-- thread is in its loop.
pub record ChatClient : Type 0 where
  pub parser : PacketFrameParser
  pub socket : Socket
  pub running : Bool
  pub receiving : Bool
  pub phase : Phase
  pub room : List ℕ
  pub output : List Line

-- What Connect leaves: running, with the receive thread started.
abbrev pub connected : List ℕ → ChatClient
connected room = record {
  parser = new_parser max_body_length;
  socket = record { wire = []; calls = 0 };
  running = true;
  receiving = true;
  phase = greeting;
  room = room;
  output = [];
}

-- void Print(const std::string& line)
unfoldable pub print : Line → Action ChatClient (Unit {0})
print line c = returned tt (record c { output = c.output ++ (line ∷ []) })

unfoldable pub set_running : Bool → Action ChatClient (Unit {0})
set_running b c = returned tt (record c { running = b })

unfoldable pub set_room : List ℕ → Action ChatClient (Unit {0})
set_room room c = returned tt (record c { room = room })

-- What DecodeBody makes of a read; `none` stands for its false.
abbrev pub decoded_of : {A : Type 0} → Outcome Reader.Reader A → Action ChatClient (Option A)
decoded_of (returned v r) =
    if Reader.failed r then (do print (decode_failed r.error); pure none) else pure (some v)
decoded_of (thrown e r) = do print malformed; pure none
decoded_of fault = λ c. fault

-- std::string{} where DecodeBody failed: HandlePacket returns.
abbrev pub if_decoded :
    {A : Type 0} → Option A → (A → Action ChatClient (Unit {0})) → Action ChatClient (Unit {0})
if_decoded none f = pure tt
if_decoded (some v) f = f v

abbrev pub show_login : LoginResponse → Action ChatClient (Unit {0})
show_login packet =
    if packet.success
    then print logged_in
    else (do print (login_rejected packet.message); set_running false)

-- The receive thread leaves its loop: if (running_.exchange(false)) Print(...)
unfoldable pub leave : Action ChatClient (Unit {0})
leave c =
    let idle : ChatClient = record c { running = false; receiving = false } in
    if c.running then print closed idle else returned tt idle

-- The loop of main ends, and Stop() begins.
unfoldable pub stop : Action ChatClient (Unit {0})
stop c = returned tt (record c { running = false; phase = stopping c.running })

-- client.IsRunning(), before the next std::getline.
unfoldable pub next_line : Action ChatClient (Unit {0})
unfolding stop
next_line c = if c.running then returned tt (record c { phase = typing }) else stop c

-- The rest of Stop(), behind receiveThread_.join().
unfoldable pub joined : Bool → Action ChatClient (Unit {0})
joined was_running c =
    let done : ChatClient = record c { phase = stopped } in
    if was_running then print disconnected done else returned tt done

module _ (exceptions : Bool) (send : ℕ → ℕ → ℕ) where
  -- bool SendAll(const uint8_t* data, size_t length): the loop of the server's.
  abbrev pub send_bytes : List ℕ → Action ChatClient Bool
  send_bytes bytes c =
      let (ok, socket) = send_all send bytes c.socket in returned ok (record c { socket = socket })

  abbrev pub sent_of : Outcome Writer (List ℕ) → Action ChatClient Bool
  sent_of (returned bytes w) c = send_bytes bytes c
  sent_of (thrown e w) c = thrown e c
  sent_of fault c = fault

  -- bool Send(PacketId id, const T& body), into the cleared buffer.
  unfoldable pub send_packet : {A : Type 0} → Formatter A → ℕ → A → Action ChatClient Bool
  send_packet F id body = sent_of (write_packet exceptions F [] id body)

  -- bool DecodeBody(std::span<const uint8_t> body, T& out)
  unfoldable pub decode_body : {A : Type 0} → Formatter A → List ℕ → Action ChatClient (Option A)
  unfolding print
  decode_body F body = decoded_of (F.deserialize F.init (new_reader exceptions reader_limits body))

  -- A case of HandlePacket.
  abbrev pub handle_as :
      {A : Type 0}
      → Formatter A
      → (A → Action ChatClient (Unit {0}))
      → List ℕ
      → Action ChatClient (Unit {0})
  handle_as F show body = do packet ← decode_body F body; if_decoded packet show

  -- void HandlePacket(uint16_t rawId, std::span<const uint8_t> body)
  unfoldable pub handle_packet : Packet → Action ChatClient (Unit {0})
  unfolding decode_body set_running
  handle_packet packet =
      if packet.0 == login_response_id
      then handle_as login_response_formatter show_login packet.1
      else if packet.0 == room_join_response_id
      then handle_as room_join_response_formatter (λ p. print (joined_room p.existing_users))
          packet.1
      else if packet.0 == room_chat_id
      then handle_as room_chat_formatter (λ p. print (room_message p.sender_name p.message))
          packet.1
      else if packet.0 == private_chat_id
      then handle_as private_chat_formatter
          (λ p. print (private_message p.sender_name p.target_name p.message)) packet.1
      else if packet.0 == user_entered_id
      then handle_as user_entered_formatter (λ p. print (entered p.username)) packet.1
      else if packet.0 == user_left_id
      then handle_as user_left_formatter (λ p. print (left p.username)) packet.1
      else print (unexpected packet.0)

  -- The callback of Feed, on the packets that it is called with. DecodeBody catches what a formatter
  -- throws, so that a call of the callback returns to the loop of Feed.
  unfoldable pub handle_packets : List Packet → Action ChatClient (Unit {0})
  unfolding handle_packet
  handle_packets [] = pure tt
  handle_packets (packet ∷ packets) = handle_packet packet >> handle_packets packets

  -- while (running_), behind a round.
  unfoldable pub next_round : Action ChatClient (Unit {0})
  unfolding leave
  next_round c = if c.running then returned tt c else leave c

  -- The rest of a round of ReceiveLoop, with the chunk that `recv` gave.
  unfoldable pub receive : List ℕ → Action ChatClient (Unit {0})
  unfolding handle_packets next_round
  receive chunk c = elim (feed c.parser chunk) [
    | none ↦ fault
    | some fed ↦
        (handle_packets fed.packets
            >> (if fed.accepted then next_round else (do print violates; leave)))
          (record c { parser = fed.parser })
  ]

  -- A round of the loop of main, on what the line asks for.
  unfoldable pub perform : List ℕ → Command → Action ChatClient (Unit {0})
  unfolding send_packet set_room next_line
  perform username nothing = next_line
  perform username quit = stop
  perform username join_usage = do print usage_join; next_line
  perform username whisper_usage = do print usage_whisper; next_line
  perform username (join room) = do
    set_room room
    _ ← send_packet room_join_request_formatter room_join_request_id (record { room_name = room })
    next_line
  perform username (chat line) = do
    _ ←
        send_packet room_chat_formatter room_chat_id
          (record { sender_name = username; message = line })
    next_line
  perform username (whisper target message) = do
    _ ←
        send_packet private_chat_formatter private_chat_id
          (record { sender_name = username; target_name = target; message = message })
    next_line

  -- The first two packets, and the loop's first test.
  unfoldable pub greet : List ℕ → Action ChatClient (Unit {0})
  unfolding send_packet next_line
  greet username c =
      (do
        _ ← send_packet login_request_formatter login_request_id (record { username = username })
        _ ←
            send_packet room_join_request_formatter room_join_request_id
              (record { room_name = c.room })
        print commands
        next_line)
        c

  -- Steps of the main thread, where it is in the phase for them; nothing happens elsewhere.
  abbrev pub main_step : List ℕ → Event → Phase → Action ChatClient (Unit {0})
  main_step username greets greeting = greet username
  main_step username (typed line) typing = perform username (command line)
  main_step username input_ended typing = stop
  main_step username joins (stopping was_running) =
      λ c. if c.receiving then returned tt c else joined was_running c
  main_step username _ _ = pure tt

  unfoldable pub step : List ℕ → Event → Action ChatClient (Unit {0})
  unfolding receive perform greet joined
  step username (received chunk) c = if c.receiving then receive chunk c else returned tt c
  step username receive_ended c = if c.receiving then leave c else returned tt c
  step username event c = main_step username event c.phase c

  -- The threads take their steps in any order.
  unfoldable pub run : List ℕ → List Event → Action ChatClient (Unit {0})
  unfolding step
  run username [] = pure tt
  run username (event ∷ events) = step username event >> run username events
