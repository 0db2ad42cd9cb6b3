-- ===== src/Uthreads.antt =====
-- uthreads.cpp.
pub mod State
pub mod Process
pub mod Signals
pub mod Scheduler
pub mod Api
pub mod Program
pub mod Invariant
pub mod Contexts
pub mod Sleepless
pub mod Safety
pub mod Rotation
pub mod Healthy
pub mod RoundRobin
pub mod WakeUp
pub mod Contract
pub mod Defects
mod Samples
