-- ===== src/Samples/Client.antt =====
-- samples/CppClient: a client that tests a server.
pub mod Packets
pub mod Network
