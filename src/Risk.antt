-- ===== src/Risk.antt =====
-- The risk engine of bot_ea: how much a trade may risk, and whether an order may be sent.
pub mod Models
pub mod Tables
pub mod Allocation
pub mod Suitability
pub mod Cash
pub mod Size
pub mod Guard
pub mod Symbols
pub mod Accepted
pub mod Results
pub mod Budget
pub mod Loss
pub mod Mode
pub mod Gates
