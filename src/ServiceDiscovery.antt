-- ===== src/ServiceDiscovery.antt =====
-- internal/infrastructure/service_discovery.go: a client that registers this service in Redis,
-- keeps it there by a heartbeat, and finds the other services.
pub mod Redis
pub mod Types
pub mod Wire
pub mod Methods
pub mod Lifecycle
pub mod Lookup
pub mod Registration
pub mod Stopping
pub mod Exact
pub mod Endpoint
pub mod Listed
pub mod Counters
mod Tests
