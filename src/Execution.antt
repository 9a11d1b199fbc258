-- ===== src/Execution.antt =====
-- gold_engine_core/execution.py: the last check of an entry order.
pub mod Signal
pub mod Contract
pub mod Reasons
pub mod Order
pub mod Conditions
pub mod Exact
pub mod Allowed
pub mod Geometry
pub mod Payload
pub mod Roundtrip
