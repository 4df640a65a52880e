-- ===== src/Linkage.antt =====
-- How messages, dispatches, reservations and settlements stay in step.
pub mod Defs
pub mod Keyed
pub mod Operations
mod Touch
mod Arrival
pub mod Rules
pub mod Claim
pub mod Delivery
pub mod Failure
pub mod Redrive
pub mod Service
pub mod Settle
pub mod Issue
