-- ===== src/Files.antt =====
-- paw_kit/pathsafety.py and paw_kit/atomicio.py
pub mod PathSafety
pub mod AtomicWrite
