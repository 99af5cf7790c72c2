-- ===== src/Parser.antt =====
-- internal/parser: from a stored page to rows. Page is parser.go, Worker is worker.go.
pub mod State
pub mod Page
pub mod Worker
mod Tests
