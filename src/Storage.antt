-- ===== src/Storage.antt =====
-- internal/db/sqlc: the rows of the tables and the queries that the workers run on them.
pub mod Rows
pub mod Sellers
pub mod Listings
pub mod Fetches
mod Tests
