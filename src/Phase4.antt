-- ===== src/Phase4.antt =====
-- The sleep and terminal system calls: phase4a/phase4a.c.
pub mod State
pub mod Drivers
pub mod Calls
pub mod Requests
pub mod Lines
pub mod Mailbox
pub mod Scanned
pub mod Sleepers
pub mod Strings
pub mod RoundTrip
mod Samples
mod Tests
