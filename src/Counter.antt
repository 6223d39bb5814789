-- ===== src/Counter.antt =====
-- src/counter: two people at a desk who do not share a language.
pub mod Types
pub mod Store
