-- ===== src/ConfigurationClient.antt =====
-- internal/infrastructure/configuration_client.go: a client of the configuration service, with a
-- cache. The methods are in `Methods`; what they do is proved in the other children.
pub mod Types
pub mod Methods
pub mod Caching
pub mod Counting
pub mod Provenance
mod Tests
