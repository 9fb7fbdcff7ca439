-- ===== src/Media.antt =====
-- The media: lists of what may be played (src/media.h).
pub mod File
pub mod Dir
pub mod Mime
