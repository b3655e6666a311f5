-- ===== src/Samples/Chat/Client/Ends.antt =====
-- samples/ChatClientConsole/main.cpp: in whatever order the two threads run, and whatever the server
-- sends, the client is defined, and it reports the end of the connection once at most.
use memory_pack_cpp.Outcome.{Outcome}
use memory_pack_cpp.Writer.{Writer}
use memory_pack_cpp.Packet.{Packet}
use memory_pack_cpp.Samples.Chat.Client.Calm.{Calm}
