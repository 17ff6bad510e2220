-- ===== src/Memory.antt =====
-- internal/memory: what the assistant remembers. Here are the two parts that work on texts alone.
pub mod Chunk
pub mod Context
pub mod Gate
pub mod Modes
pub mod Examples
