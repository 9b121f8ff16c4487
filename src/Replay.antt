-- ===== src/Replay.antt =====
-- The log read back: `replay_log` of src/persistence.cpp.
pub mod Read
pub mod Loop
pub mod Records
pub mod Durable
pub mod Revived
