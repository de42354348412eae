-- ===== src/Services.antt =====
-- src/api/services: what an authenticated agent asks for.
pub mod Requests
pub mod Review
pub mod Audited
pub mod Tenancy
pub mod Reads
pub mod ReadLaws
