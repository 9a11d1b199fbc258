-- ===== src/Session.antt =====
-- bot_ea/stop_policy.py: when a trading session is halted.
pub mod Stop
pub mod Halt
