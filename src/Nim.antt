-- ===== src/Nim.antt =====
-- nim/uthreads.cpp and nim/Thread.cpp.
pub mod State
pub mod Process
pub mod Signals
pub mod Scheduler
pub mod Mutex
pub mod Api
pub mod Program
pub mod Invariant
pub mod Safety
pub mod Healthy
pub mod Turns
pub mod Contract
mod Samples
