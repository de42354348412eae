-- ===== src/Github.antt =====
-- src/github and the webhook that GitHub calls: which events start a security review.
pub mod Audited
pub mod Signature
pub mod PullRequests
pub mod Route
pub mod RouteLaws
