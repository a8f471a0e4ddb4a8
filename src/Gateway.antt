-- ===== src/Gateway.antt =====
-- The gateway before the HTTP listener, internal/gateway.
pub mod Sessions
pub mod Owners
pub mod Exclusive
pub mod Requests
pub mod Entered
mod Tests
