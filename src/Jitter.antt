-- ===== src/Jitter.antt =====
-- The jitter buffers between the pipeline's stages (src/jitter.h and its two implementations).
pub mod Ctx
pub mod Sg
pub mod Ring
pub mod Registry
mod Tests
