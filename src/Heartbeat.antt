-- ===== src/Heartbeat.antt =====
-- The heartbeats, which say when the next buffer is due (src/heartbeat.h).
pub mod Samples
pub mod Bitrate
pub mod Pulse
mod Tests
