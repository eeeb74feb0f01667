-- ===== src/GrpcServer.antt =====
-- internal/presentation/grpc/server.go: the life of the exchange's gRPC server, its health status and
-- its request counter.
pub mod Types
pub mod Methods
pub mod Lifecycle
pub mod Termination
pub mod Tests
