-- ===== src/Correlation.antt =====
-- src/correlation: what runtime evidence says about a finding.
pub mod BuildMatch
pub mod Resolve
pub mod Fingerprint
pub mod Correlate
