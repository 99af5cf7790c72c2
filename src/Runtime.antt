-- ===== src/Runtime.antt =====
-- What the workers run on: the database, the broker's channel, HTTP, the clocks and the limiter.
pub mod Env
pub mod Actions
pub mod Rules
pub mod Samples
