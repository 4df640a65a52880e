-- ===== src/Audit.antt =====
-- src/energy_flex_trust/audit.py: the definitions, the order of the events, and the hash chain.
pub mod Defs
mod Order
pub mod Chain
pub mod Tamper
