-- ===== src/HttpServer.antt =====
-- The HTTP server that cmd/server/main.go sets up, with the handlers of internal/handlers.
pub mod Gin
pub mod Handlers
pub mod Setup
pub mod Routing
pub mod Answers
pub mod Scrape
pub mod Tests
