-- ===== src/Phase1b.antt =====
-- The process table and the scheduler: phase1b-archive/phase1b.c.
pub mod State
pub mod Queues
pub mod Scheduler
pub mod Spork
pub mod Join
pub mod Startup
pub mod Frames
pub mod Chain
pub mod Dispatch
pub mod Blocked
pub mod Slots
pub mod Removal
pub mod Cycles
pub mod Reaping
pub mod Family
pub mod Freeing
pub mod Joining
pub mod Quietness
pub mod Members
pub mod Table
pub mod Untargeted
pub mod Keeping
pub mod Programs
pub mod Machine
pub mod Woken
pub mod Quit
mod Tests
