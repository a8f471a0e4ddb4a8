-- ===== src/Audit.antt =====
-- The audit trail, internal/audit/audit.go.
pub mod Event
pub mod Validate
pub mod Chain
pub mod Tamper
pub mod Writer
pub mod Recorded
pub mod Completeness
pub mod Assessed
pub mod Limited
pub mod Tests
mod RunTests
