-- ===== src/Runtime.antt =====
-- The event-driven runtime of gold_engine_core, its lanes, and the causal replay of recorded data.
pub mod Time
pub mod State
pub mod Fast
pub mod Bars
pub mod Slow
pub mod Replay
pub mod Reach
pub mod Queue
pub mod Steps
pub mod TickSteps
pub mod BarSteps
pub mod Buckets
pub mod Catchup
pub mod Frames
pub mod Lookahead
pub mod Causal
pub mod NoFuture
pub mod Once
pub mod Outbox
pub mod Path
pub mod Resolved
