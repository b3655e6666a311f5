-- ===== src/Samples/Chat/Client/Sent.antt =====
-- samples/ChatClientConsole/main.cpp: the packet that a typed line makes the client send.
use memory_pack_cpp.Base.{
  ℕ, ◌<◌, ◌^◌, ◌≡◌, ◌∙◌, refl, ap, Bool, false, List, [], ◌∷◌, ◌++◌, length, arith,
}
use memory_pack_cpp.Outcome.{Outcome, after}
use memory_pack_cpp.Format.{Formatter, Lawful}
use memory_pack_cpp.Packet.Written.{packet_wire, write_packet-wire}
use memory_pack_cpp.Samples.Server.Sending.{send_all}
use memory_pack_cpp.Samples.Chat.Words.{is_blank}
use memory_pack_cpp.Samples.Chat.Words.Trimmed.{IsClean}
use memory_pack_cpp.Samples.Chat.Packets.{private_chat_id, private_chat_formatter}
use memory_pack_cpp.Samples.Chat.Packets.Laws.{private_chat_laws}
use memory_pack_cpp.Samples.Chat.Commands.{whisper_prefix, Command, command, whisper}
use memory_pack_cpp.Samples.Chat.Commands.Laws.{OneWord, command-whisper}
use memory_pack_cpp.Samples.Chat.Client.{
  ChatClient, typing, typed, next_line, send_packet, send_bytes, perform, main_step, step,
}

module _ (exceptions : Bool) (send : ℕ → ℕ → ℕ) where
  send_packet-packet_wire :
      {A : Type 0} (F : Formatter A) (L : Lawful F) (id : ℕ) (v : A) (c : ChatClient)
      → L.IsEncodable v
      → length (L.wire v) < 2 ^ 31
      → send_packet exceptions send F id v c
        ≡ send_bytes exceptions send (packet_wire exceptions F L id v) c
  unfolding send_packet
  send_packet-packet_wire F L id v c h small =
      let (w, e) = write_packet-wire exceptions F L [] id v h small (omega arith) in
      rw (send_packet, e) refl

  step-typed :
      (username line : List ℕ) (c : ChatClient)
      → c.phase ≡ typing
      → step exceptions send username (typed line) c
        ≡ perform exceptions send username (command line) c
  unfolding step
  step-typed username line c reading =
      ap (λ p. main_step exceptions send username (typed line) p c) reading

  perform-whisper :
      (username name message : List ℕ) (c : ChatClient)
      → private_chat_laws.IsEncodable
          (record { sender_name = username; target_name = name; message = message })
      → length (
          private_chat_laws.wire
            (record { sender_name = username; target_name = name; message = message }))
        < 2 ^ 31
      → perform exceptions send username (whisper name message) c
        ≡ next_line (record c {
          socket =
              (send_all send
                (packet_wire exceptions private_chat_formatter private_chat_laws private_chat_id
                  (record { sender_name = username; target_name = name; message = message }))
                c.socket).1;
        })
  unfolding perform
  perform-whisper username name message c fits small =
      ap (λ (o : Outcome ChatClient Bool). after o (λ _. next_line))
        (send_packet-packet_wire private_chat_formatter private_chat_laws private_chat_id
          (record { sender_name = username; target_name = name; message = message }) c fits small)

  -- Typing "/w ", a name and a message makes the client send just one packet 106, a PrivateChat from
  -- the user's name to that name with that message, and test whether to read the next line. The name
  -- has no blank in front and no ' ' in it, the message is not empty and has no blanks at its ends;
  -- the main thread is reading, and the texts are shorter than 2^31 bytes, as is the whole body.
  pub typed-private_chat :
      (username : List ℕ) (x : ℕ) (name : List ℕ) (y : ℕ) (message : List ℕ) (c : ChatClient)
      → c.phase ≡ typing
      → is_blank x ≡ false
      → OneWord (x ∷ name)
      → IsClean (y ∷ message)
      → private_chat_laws.IsEncodable
          (record { sender_name = username; target_name = x ∷ name; message = y ∷ message })
      → length (
          private_chat_laws.wire
            (record { sender_name = username; target_name = x ∷ name; message = y ∷ message }))
        < 2 ^ 31
      → step exceptions send username
          (typed (whisper_prefix ++ ((x ∷ name) ++ (0x20 ∷ (y ∷ message)))))
          c
        ≡ next_line (record c {
          socket =
              (send_all send
                (packet_wire exceptions private_chat_formatter private_chat_laws private_chat_id
                  (record {
                    sender_name = username;
                    target_name = x ∷ name;
                    message = y ∷ message;
                  }))
                c.socket).1;
        })
  typed-private_chat username x name y message c reading h word clean fits small =
      step-typed username (whisper_prefix ++ ((x ∷ name) ++ (0x20 ∷ (y ∷ message)))) c reading
      ∙ ap (λ (o : Command). perform exceptions send username o c)
          (command-whisper x name y message h word clean)
      ∙ perform-whisper username (x ∷ name) (y ∷ message) c fits small
