-- ===== src/Samples.antt =====
-- samples: programs around the library.
pub mod Server
pub mod Chat
pub mod Client
pub mod Window
