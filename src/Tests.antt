-- ===== src/Tests.antt =====
-- The theorems at concrete inputs.
pub mod Sample
mod System
mod Calls
mod Access
mod Drill
mod Startup
mod Checkpoints
mod Delivery
mod Worker
mod Ending
mod Scripts
mod Settlement
mod Audit
