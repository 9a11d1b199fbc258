-- ===== src/Setup.antt =====
-- goldm_signal/strategy/state_machine.py: the life of one setup, from scanning to a closed signal.
pub mod Machine
pub mod Order
pub mod History
