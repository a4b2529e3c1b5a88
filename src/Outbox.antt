-- ===== src/Outbox.antt =====
-- pkg/outbox: the transactional outbox of every service.
pub mod State
pub mod Relay
pub mod Sent
pub mod Ordered
pub mod Delivered
pub mod Cleaned
pub mod Drained
pub mod Tests
