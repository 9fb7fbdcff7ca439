-- ===== src/Sinks.antt =====
-- The sinks (src/sink.h).
pub mod Settings
pub mod Unix
pub mod Turns
pub mod Handover
mod Tests
