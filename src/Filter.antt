-- ===== src/Filter.antt =====
-- The audio filters (src/filter.h). A sample is a signed int of 32 bits; where only its bits matter
-- it is their pattern, a number below 2^32.
pub mod Format
pub mod Bytes
pub mod Run
pub mod Mono
pub mod Mixed
pub mod Rescale
pub mod Boost
pub mod Stats
pub mod Stream
pub mod Cut
pub mod Output
pub mod Written
pub mod Build
mod Tests
