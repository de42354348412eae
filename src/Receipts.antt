-- ===== src/Receipts.antt =====
-- src/receipts: the status of a run's receipt.
pub mod Audited
pub mod Status
pub mod Gather
pub mod Render
pub mod Generate
pub mod Written
pub mod GenerateLaws
pub mod Concluded
