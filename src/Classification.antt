-- ===== src/Classification.antt =====
-- The classification of sellers: the views of the migrations, and the queries of
-- internal/db/sqlc/classifier.sql.go on them.
pub mod Score
pub mod Views
pub mod Queries
mod Tests
