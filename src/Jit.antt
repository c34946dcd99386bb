-- ===== src/Jit.antt =====
-- paw_kit/jit
pub mod Db
pub mod Outcome
pub mod Agreement
pub mod Shadow
pub mod Compiler
pub mod Decorator
pub mod Deadline
