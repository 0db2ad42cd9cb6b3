-- ===== src/Demos.antt =====
-- The demonstration programs of demos/.
pub mod Jmp
pub mod Itimer
pub mod Sigint
