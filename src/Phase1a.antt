-- ===== src/Phase1a.antt =====
-- The first form of process management, with switches by hand: phase1a-archive/phase1a.c.
pub mod State
pub mod Processes
pub mod Startup
pub mod Latest
pub mod Links
pub mod Unlinking
pub mod Joining
pub mod Adding
pub mod Sporking
pub mod Quitting
mod Tests
