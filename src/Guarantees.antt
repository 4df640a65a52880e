-- ===== src/Guarantees.antt =====
-- What the operations guarantee one by one.
pub mod Replay
pub mod Retry
pub mod Success
pub mod Settling
pub mod Failure
pub mod Drain
pub mod Backoff
pub mod Refused
pub mod Delivered
pub mod Liveness
pub mod Worker
pub mod Codec
pub mod Rounding
pub mod Nearest
pub mod Roles
