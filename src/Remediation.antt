-- ===== src/Remediation.antt =====
-- src/remediation: the life of a fix, from its submission to the verdict on it.
pub mod Outcome
pub mod Submit
pub mod Start
pub mod Complete
pub mod Audited
pub mod SubmitMoves
pub mod SubmitLaws
pub mod StartLaws
