-- ===== src/Jit/Db.antt =====
-- paw_kit/jit/db.py
pub mod Table
pub mod Schema
pub mod Tasks
pub mod Pairs
pub mod Op
pub mod Ops
pub mod Connection
pub mod Session
