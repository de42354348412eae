-- ===== src/Access.antt =====
-- src/auth and src/authz: what an agent may do, in its organization and to a target.
pub mod Permissions
pub mod Authorize
pub mod AuthorizeLaws
