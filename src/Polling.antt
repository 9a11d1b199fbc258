-- ===== src/Polling.antt =====
-- One cycle of bot_ea's polling runtime.
pub mod Models
pub mod Report
pub mod Cycle
pub mod Verdict
pub mod Halting
pub mod Cleared
pub mod Exposure
