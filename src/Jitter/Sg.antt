-- ===== src/Jitter/Sg.antt =====
-- src/jitter_sg.c: the scatter-gather jitter, a ring of buffers with a state each.
-- A pointer into `private->sg` is an index, and a `data` pointer is an offset in `private->buffer`.
pub mod Defs
pub mod Wait
pub mod Valid
pub mod Push
pub mod Retag
pub mod Pop
pub mod Reset
pub mod Queue
pub mod Fifo
pub mod Calls
pub mod Peers
pub mod Moves
pub mod History
pub mod Safety
mod Tests
