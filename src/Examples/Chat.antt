-- ===== src/Examples/Chat.antt =====
-- The chat client of samples/ChatClientConsole on concrete input.
use memory_pack_cpp.Base.{ℕ, ◌≡◌, refl, true, List, [], ◌∷◌, ◌++◌, min, arith}
use memory_pack_cpp.Wire.{string_wire}
use memory_pack_cpp.Format.Primitives.{string-Lawful}
use memory_pack_cpp.Format.Objects.Laws.{object-Lawful}
use memory_pack_cpp.Packet.Written.{packet_wire}
use memory_pack_cpp.Samples.Server.Sending.{send_all}
use memory_pack_cpp.Samples.Chat.Packets.{private_chat_id, private_chat_formatter}
use memory_pack_cpp.Samples.Chat.Packets.Laws.{private_chat_laws}
use memory_pack_cpp.Samples.Chat.Words.{trim}
use memory_pack_cpp.Samples.Chat.Words.Trimmed.{IsTrimmed, trim-IsTrimmed, IsClean}
use memory_pack_cpp.Samples.Chat.Commands.{
  command, whisper_prefix, join_usage, whisper_usage, chat, whisper, join, quit,
}
use memory_pack_cpp.Samples.Chat.Commands.Laws.{IsSound, command-IsSound}
use memory_pack_cpp.Samples.Chat.Client.{ChatClient, connected, typing, typed, next_line, step}
use memory_pack_cpp.Samples.Chat.Client.Sent.{typed-private_chat}

-- " hi \r"
abbrev spaced : List ℕ
spaced = 0x20 ∷ 0x68 ∷ 0x69 ∷ 0x20 ∷ 0x0D ∷ []

trim-spaced : trim spaced ≡ 0x68 ∷ 0x69 ∷ []
unfolding trim memory_pack_cpp.Samples.Chat.Words.trim_begin
    memory_pack_cpp.Samples.Chat.Words.trim_end
trim-spaced = refl

trim-IsTrimmed_example : IsTrimmed spaced (trim spaced)
trim-IsTrimmed_example = trim-IsTrimmed spaced

-- "/join" and "/w bob" are answered with the usage, "/w" alone is sent to the room.
abbrev whisper_alone : List ℕ
whisper_alone = 0x2F ∷ 0x77 ∷ []

abbrev whisper_nothing : List ℕ
whisper_nothing = 0x2F ∷ 0x77 ∷ 0x20 ∷ 0x62 ∷ 0x6F ∷ 0x62 ∷ []

abbrev join_alone : List ℕ
join_alone = 0x2F ∷ 0x6A ∷ 0x6F ∷ 0x69 ∷ 0x6E ∷ []

commands_alone :
    (command join_alone ≡ join_usage)
    × (command whisper_nothing ≡ whisper_usage)
    × (command whisper_alone ≡ chat whisper_alone)
unfolding command trim memory_pack_cpp.Samples.Chat.Words.trim_begin
    memory_pack_cpp.Samples.Chat.Words.trim_end memory_pack_cpp.Samples.Chat.Words.starts_with
    memory_pack_cpp.Samples.Chat.Words.find memory_pack_cpp.Samples.Chat.Commands.trimmed_command
commands_alone = (refl, refl, refl)

command-IsSound_example : IsSound (command whisper_nothing)
command-IsSound_example = command-IsSound whisper_nothing

-- `send` takes at most five bytes.
abbrev five : ℕ → ℕ → ℕ
five k n = min n 5

abbrev ann : List ℕ
ann = 0x61 ∷ 0x6E ∷ 0x6E ∷ []

abbrev lobby : List ℕ
lobby = 0x6C ∷ 0x6F ∷ 0x62 ∷ 0x62 ∷ 0x79 ∷ []

-- "bob" and "hi"
hi-IsClean : IsClean (0x68 ∷ 0x69 ∷ [])
hi-IsClean = rw trim-spaced at (trim-IsTrimmed spaced).clean

abbrev reading : ChatClient
reading = record (connected lobby) { phase = typing }

typed-private_chat_example :
    step true five ann
      (typed (whisper_prefix ++ ((0x62 ∷ 0x6F ∷ 0x62 ∷ []) ++ (0x20 ∷ (0x68 ∷ 0x69 ∷ [])))))
      reading
    ≡ next_line (record reading {
      socket =
          (send_all five
            (packet_wire true private_chat_formatter private_chat_laws private_chat_id (record {
              sender_name = ann;
              target_name = 0x62 ∷ 0x6F ∷ 0x62 ∷ [];
              message = 0x68 ∷ 0x69 ∷ [];
            }))
            reading.socket).1;
    })
unfolding object-Lawful string-Lawful string_wire
typed-private_chat_example =
    typed-private_chat true five ann 0x62 (0x6F ∷ 0x62 ∷ []) 0x68 (0x69 ∷ []) reading refl refl
      (refl, (refl, (refl, tt))) hi-IsClean (omega arith, (omega arith, (omega arith, tt)))
      (omega arith)
