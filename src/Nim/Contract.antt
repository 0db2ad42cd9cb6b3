-- ===== src/Nim/Contract.antt =====
-- What the functions of the library do on a system whose calls succeed.
pub mod Mutex
pub mod Refusals
pub mod Spawning
pub mod Landings
