-- ===== src/Harness.antt =====
-- paw_kit/test
pub mod Integers
pub mod Matching
pub mod Suite
pub mod Fuzzer
pub mod Reporting
pub mod Assertions
pub mod Texts
pub mod Runner
pub mod Compare
pub mod Active
pub mod Judge
