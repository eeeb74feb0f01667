-- ===== src/Main.antt =====
-- cmd/server/main.go, `main`: the life of the process.
pub mod Process
pub mod Shutdown
pub mod Tests
