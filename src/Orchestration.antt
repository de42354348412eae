-- ===== src/Orchestration.antt =====
-- src/orchestration/handlers: what a job does when the queue runs it.
pub mod Webhooks
pub mod Finalize
mod Adds
pub mod FinalizeLaws
pub mod SourceReview
pub mod Runtime
pub mod Audited
pub mod Prepare
pub mod Route
pub mod RouteAudited
pub mod RouteLaws
pub mod PrepareLaws
pub mod Deliver
pub mod DeliverLaws
