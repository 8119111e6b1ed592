-- ===== src/Phase3.antt =====
-- phase3/phase3.c: semaphores and the system calls on processes.
pub mod State
pub mod Semaphores
pub mod Processes
pub mod Counting
pub mod Creation
pub mod Boot
pub mod Samples
mod Tests
