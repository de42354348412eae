-- ===== src/Engines.antt =====
-- src/adapters: what an engine's result writes to the database. A run of an engine, a process in a
-- sandbox, is a parameter of the handlers; its normalized result is the input here.
pub mod Severity
pub mod DeepSec
pub mod Strix
