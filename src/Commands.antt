-- ===== src/Commands.antt =====
-- The commands that the player is driven by (src/cmds.h).
pub mod Line
pub mod Import
pub mod Keys
pub mod Methods
pub mod Removed
pub mod Calls
pub mod Sessions
mod Tests
