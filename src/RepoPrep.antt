-- ===== src/RepoPrep.antt =====
-- src/repo-prep: the snapshot of a repository at a pair of commits, and what changed between them.
pub mod Diff
pub mod DiffLaws
pub mod Languages
pub mod Snapshot
pub mod SnapshotLaws
pub mod Durable
