-- ===== src/Precise.antt =====
-- The program of several files whose main is precise_allocer.c: it maps one allocation in a phase and
-- touches one of its bytes. The repository's build does not name it.
pub mod Files
pub mod Pattern
pub mod Modules
pub mod Alloc
pub mod Time
pub mod Job
pub mod Vector
pub mod Main
