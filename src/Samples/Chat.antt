-- ===== src/Samples/Chat.antt =====
-- samples/ChatClientConsole: a chat client for a console.
pub mod Packets
pub mod Words
pub mod Commands
pub mod Client
