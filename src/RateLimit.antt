-- ===== src/RateLimit.antt =====
-- Rate limit and spend cap of tool calls, internal/ratelimit/ratelimit.go.
pub mod Limiter
pub mod History
pub mod Bounds
mod Tests
