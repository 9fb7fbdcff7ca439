-- ===== src/Rtp.antt =====
-- src/rtp.h, src/mux_rtp.c and src/demux_rtp.c: a stream's way over the network.
mod Wire
pub mod Mux
pub mod Attach
pub mod Demux
pub mod Parse
pub mod Deliver
pub mod Send
pub mod Header
pub mod Chunks
pub mod Relay
pub mod Full
pub mod Sessions
pub mod Control
pub mod Losses
mod Tests
