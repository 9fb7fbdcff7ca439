-- ===== src/Jitter/Ring.antt =====
-- src/jitter_ring.c: the ring jitter, which passes bytes in amounts other than the size of a buffer.
pub mod Defs
pub mod Wait
pub mod Valid
pub mod Push
pub mod Pull
pub mod Peer
pub mod Pop
