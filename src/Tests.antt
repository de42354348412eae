-- ===== src/Tests.antt =====
-- Runs of the model at concrete inputs, and the theorems at inputs where their hypotheses hold.
mod Scenario
mod Audit
mod Remediation
mod Decisions
mod Queue
mod Classifier
mod Finalize
mod Access
mod Receipt
mod Network
mod Accounts
mod Github
mod Reads
mod RepoPrep
