-- ===== src/Pool.antt =====
-- The pool of upstream accounts, internal/pool.
pub mod Router
pub mod Routing
pub mod Budget
pub mod Downgrade
pub mod Tests
