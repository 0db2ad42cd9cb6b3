-- ===== src/Clients.antt =====
-- Programs that use the library: main.cpp and tests_to_be_ran_separately.cpp.
pub mod Code
pub mod World
pub mod Main
pub mod Separate
mod Samples
