-- ===== src/Engine/Turns/Contextual.antt =====
-- src/interpreter/engine/turns.ts: the contextual lane's view of one turn.
pub data ContextualState : Type 0 where
  queued inflight applied refined kept discarded stale failed skipped : ContextualState
