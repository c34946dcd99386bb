-- ===== src/Tests.antt =====
-- Runs of the model at concrete inputs: the floats are numbers there.
pub mod Tables
pub mod Windows
pub mod Serving
pub mod Suites
pub mod Repairs
pub mod Judgements
pub mod Linting
pub mod Workers
pub mod Answers
