-- ===== src/Samples/Server.antt =====
-- samples/CppServer: a server that answers the requests of its connections.
pub mod Packets
pub mod Sending
pub mod Connection
