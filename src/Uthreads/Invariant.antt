-- ===== src/Uthreads/Invariant.antt =====
-- Where each thread id stands: what the status of a thread says of the containers, and which saved
-- contexts may be jumped to.
pub mod Defs
pub mod Rules
pub mod Sleepers
pub mod Leaving
pub mod Switch
pub mod Steps
pub mod Spawning
pub mod Terminating
pub mod Blocking
pub mod Resuming
pub mod Sleeping
