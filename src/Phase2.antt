-- ===== src/Phase2.antt =====
-- phase2/phase2.c: mailboxes, mail slots and the system call vector.
pub mod State
pub mod Waiters
pub mod Slots
pub mod Ring
pub mod Invariant
pub mod Lifecycle
pub mod Transfer
pub mod Runs
pub mod Messages
pub mod Safety
pub mod WakeupOrder
pub mod Fifo
pub mod Refinement
pub mod Device
pub mod Conditional
pub mod Unattended
pub mod Syscalls
pub mod Samples
mod Tests
