-- ===== src/Trail.antt =====
-- The audit log under every operation: whatever a call does or raises, `verify_chain` accepts the
-- log afterwards if it did so before.
mod Rules
pub mod Service
pub mod Delivery
