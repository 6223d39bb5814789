-- ===== src/Engine.antt =====
-- src/interpreter/engine: the engine of a live session.
pub mod Chunks
pub mod Turns
