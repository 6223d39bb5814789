-- ===== src/Live.antt =====
-- src/features/live: the live console.
pub mod Lane
pub mod Transport
