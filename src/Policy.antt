-- ===== src/Policy.antt =====
-- The policy engine, internal/policy.
pub mod Types
pub mod Patterns
pub mod Evaluate
pub mod Verdicts
pub mod Load
pub mod Loaded
pub mod Injection
mod Tests
