-- ===== src/Outbox.antt =====
-- src/lib/kafka/outbox.ts: the transactional outbox.
pub mod Enqueue
pub mod Drain
