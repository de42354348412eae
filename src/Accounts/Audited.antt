-- ===== src/Accounts/Audited.antt =====
-- Who logs in leaves the findings and the audit log alone: src/auth.
use shld.Prelude.{ℕ, String, Option, none, some, List}
use shld.Accounts.Agents.{
  authenticate_agent_by_api_key, created_unless_found, get_or_create_github_agent_identity,
}
use shld.Accounts.Sessions.{create_session, revoke_session}
use shld.Action.Keeps.{Keeps}
use shld.Domain.Trail.{IsAudited}
use shld.Domain.Trail.Rules.{audit_rules, elsewhere-IsAudited}
use shld.Store.Accounts.{AgentIdentity}

created_unless_found-IsAudited :
    (organization_id : ℕ) (found : Option AgentIdentity)
    → Keeps IsAudited (created_unless_found organization_id found)
unfolding created_unless_found
created_unless_found-IsAudited organization_id none =
    search (audit_rules, elsewhere-IsAudited) depth 12
created_unless_found-IsAudited organization_id (some identity) = search audit_rules depth 8

pub get_or_create_github_agent_identity-IsAudited :
    (organization_id : ℕ) → Keeps IsAudited (get_or_create_github_agent_identity organization_id)
unfolding get_or_create_github_agent_identity
get_or_create_github_agent_identity-IsAudited organization_id =
    search (audit_rules, created_unless_found-IsAudited) depth 8

module _ (sha256 : List ℕ → String) where
  pub authenticate_agent_by_api_key-IsAudited :
      (raw_key : List ℕ) → Keeps IsAudited (authenticate_agent_by_api_key sha256 raw_key)
  unfolding authenticate_agent_by_api_key
  authenticate_agent_by_api_key-IsAudited raw_key =
      search (audit_rules, elsewhere-IsAudited) depth 16

  pub create_session-IsAudited :
      (token : List ℕ) (user_id : ℕ) → Keeps IsAudited (create_session sha256 token user_id)
  unfolding create_session
  create_session-IsAudited token user_id = search (audit_rules, elsewhere-IsAudited) depth 16

  pub revoke_session-IsAudited : (token : List ℕ) → Keeps IsAudited (revoke_session sha256 token)
  unfolding revoke_session
  revoke_session-IsAudited token = search (audit_rules, elsewhere-IsAudited) depth 8
