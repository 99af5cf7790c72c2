-- ===== src/Queue.antt =====
-- internal/queue: the RabbitMQ topology, the publisher and the consumer.
pub mod Names
pub mod Headers
pub mod Publisher
pub mod Consumer
pub mod Topology
mod Tests
