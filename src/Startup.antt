-- ===== src/Startup.antt =====
-- Starting a process on a database: database.py, worker.py and recovery_cli.py of
-- src/energy_flex_trust.
pub mod Database
pub mod Entry
pub mod Guards
pub mod Recovery
pub mod Migrated
