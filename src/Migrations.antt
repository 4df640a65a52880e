-- ===== src/Migrations.antt =====
-- The schema: migrations/versions, and the tables that models.py of src/energy_flex_trust declares.
pub mod Schema
pub mod Initial
pub mod Outbox
pub mod Models
pub mod Metadata
pub mod Upgrade
