-- ===== src/Outbox.antt =====
-- src/energy_flex_trust/outbox.py: the payload of a message, the queue, and the worker.
pub mod Payload
pub mod Queue
pub mod Worker
