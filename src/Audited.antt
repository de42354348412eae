-- ===== src/Audited.antt =====
-- Every service that touches a finding keeps the promise of the audit log, in any order of calls.
pub mod Engines
pub mod Policy
pub mod Correlation
pub mod Service
pub mod Reach
