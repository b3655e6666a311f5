-- ===== src/Dotnet.antt =====
-- include/memorypack/dotnet.hpp: the .NET value types.
pub mod Guid
pub mod Times
pub mod Chrono
pub mod Half
pub mod Formatters
pub mod Vectors
