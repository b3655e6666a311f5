-- ===== src/Examples.antt =====
-- Runs on concrete input, and instances of the theorems.
mod Values
mod Packets
mod Buffers
mod Unions
mod Maps
mod Text
mod Dotnet
mod Server
mod Tolerant
mod Chat
mod Client
