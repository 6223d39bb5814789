-- ===== src/Limits.antt =====
-- src/lib/rate-limit.ts and src/providers/llm/rate-limit.ts: the requests that others may make,
-- and those that this process has made.
pub mod Requests
