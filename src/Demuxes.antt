-- ===== src/Demuxes.antt =====
-- The demuxes that hand a stream on as it is (src/demux.h).
pub mod Passthrough
pub mod Notify
mod Tests
