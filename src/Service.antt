-- ===== src/Service.antt =====
-- src/energy_flex_trust/service.py: `CoordinationService`, one module for a group of methods.
pub mod Common
pub mod Registration
pub mod Reserve
pub mod Issue
pub mod Metering
pub mod Settle
