-- ===== src/Supervisor.antt =====
-- The supervision of worker processes by gold_orchestrator.
pub mod Program
pub mod Models
pub mod Worker
pub mod Recorded
pub mod Process
pub mod Steps
pub mod History
pub mod Backoff
pub mod Unwanted
