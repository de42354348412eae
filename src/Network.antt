-- ===== src/Network.antt =====
-- src/authz/network-guard.ts, url-scope.ts and safe-fetch.ts: which addresses and URLs a request to
-- a target may reach.
pub mod Address
pub mod Octets
pub mod Guard
pub mod Colons
pub mod Hex
pub mod Groups
pub mod Scope
pub mod Fetch
pub mod ScopeLaws
pub mod Admission
pub mod FetchLaws
pub mod Wildcards
pub mod Reserved
pub mod Spellings
pub mod Mapped
