-- ===== src/Accounts.antt =====
-- src/auth: the sessions of the dashboard and the keys of agents.
pub mod Audited
pub mod Sessions
pub mod SessionLaws
pub mod AgentLaws
pub mod ApiKeys
pub mod Agents
