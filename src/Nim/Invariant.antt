-- ===== src/Nim/Invariant.antt =====
-- Where each thread stands, whose environment may be jumped to, and who owns the mutex.
pub mod Defs
pub mod Steps
pub mod Switch
pub mod Release
pub mod Locking
pub mod Ids
pub mod Spawning
pub mod Blocking
pub mod Resuming
pub mod Freeing
pub mod Terminating
