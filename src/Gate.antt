-- ===== src/Gate.antt =====
-- gold_orchestrator/entry_gate.py: the switch by which an operator lets one EA session enter trades.
pub mod Reading
pub mod Files
pub mod Authority
pub mod Switch
pub mod Binding
