-- ===== src/Position.antt =====
-- goldm_signal/position_management.py: what is done with an open position at each quote.
pub mod Policy
pub mod Plan
pub mod Cases
pub mod Actions
pub mod Total
pub mod Profit
