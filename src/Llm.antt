-- ===== src/Llm.antt =====
-- src/providers/llm: routing to language-model providers.
pub mod Breaker
pub mod Providers
pub mod Errors
pub mod Deadlines
pub mod Quota
pub mod Router
