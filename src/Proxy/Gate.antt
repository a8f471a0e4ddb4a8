-- ===== src/Proxy/Gate.antt =====
-- The gate that every message passes, `decideCanonical` and `decideToolCall` of
-- internal/proxy/stdio.go, with the effects on its state. Log output is left out.
pub mod State
pub mod Types
pub mod Decide
pub mod Cleared
pub mod Judged
pub mod AtOnce
mod Tests
