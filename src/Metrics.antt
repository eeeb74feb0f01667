-- ===== src/Metrics.antt =====
-- internal/domain/ports/metrics.go and internal/infrastructure/observability: the labels of metrics,
-- what the middleware of the HTTP server records, and the adapter that records it with Prometheus.
pub mod Port
pub mod Middleware
pub mod Recording
pub mod Red
pub mod Prometheus
pub mod Adapter
pub mod Exposed
pub mod Tests
