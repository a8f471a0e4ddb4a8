-- ===== src/Proxy.antt =====
-- The proxy between an agent and a server, internal/proxy.
pub mod Cards
pub mod Ranges
pub mod Spaced
pub mod Queue
pub mod Rows
pub mod Frontier
pub mod Flushed
pub mod Order
pub mod Catalog
pub mod Listing
pub mod Pins
pub mod Json
pub mod Calls
pub mod Inject
pub mod Injected
pub mod Gate
pub mod Actions
pub mod Written
pub mod Grown
pub mod Lifecycle
pub mod Observing
pub mod Pending
pub mod Settled
pub mod Listed
pub mod Shown
pub mod Relay
mod Tests
