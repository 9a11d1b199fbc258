-- ===== src/Bridge.antt =====
-- gold_event_bridge: events of the EAs' spool files, kept in SQLite and delivered to chats.
pub mod Json
pub mod Envelope
pub mod Contract
pub mod Store
pub mod Lines
pub mod Ingest
pub mod Rotation
pub mod Compact
pub mod Recovery
pub mod Resume
pub mod Adjust
pub mod Delivery
pub mod Recipients
pub mod Once
pub mod Settled
