-- ===== src/Uthreads/Contract.antt =====
-- The contract of uthreads.h: which calls are refused, and what the others do.
pub mod Init
pub mod Refusals
pub mod Spawning
pub mod Resuming
pub mod Termination
