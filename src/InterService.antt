-- ===== src/InterService.antt =====
-- internal/infrastructure/inter_service_client.go: gRPC clients of the other services, made on
-- demand over connections that are kept.
pub mod Types
pub mod Methods
pub mod Consistency
pub mod Requests
pub mod Dialling
pub mod Stale
pub mod Registered
mod Tests
