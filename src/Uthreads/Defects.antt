-- ===== src/Uthreads/Defects.antt =====
-- Blocked alarms after a switch, alarms inside one, and sleepers or callers that are terminated.
pub mod Masks
pub mod Sleepers
pub mod Label
