-- ===== src/Uthreads/Rotation.antt =====
-- What a switch does to the queues and the counters, by an independent description: who is woken, who
-- runs next, and how the quantums are counted.
pub mod Spec
pub mod Views
pub mod Jump
pub mod Turns
