-- ===== src/Call.antt =====
-- internal/call: the store of active calls and the bridge of a call to its WebSocket client.
pub mod Manager
pub mod Bridge
pub mod Processor
pub mod Pump
pub mod Incoming
