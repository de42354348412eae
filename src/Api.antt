-- ===== src/Api.antt =====
-- src/api: repeated requests, and the HTTP status of an error. Api/Fairness is about
-- src/orchestration/tenant-concurrency.ts.
pub mod Idempotency
pub mod IdempotencyLaws
pub mod ErrorHandler
pub mod Fairness
