-- ===== src/Accounts/Agents.antt =====
-- src/auth/authenticate-agent.ts
use shld.Prelude.{
  ℕ, Bool, true, false, ◌&&◌, Option, none, some, List, [], ◌∷◌, String, str_eq, ◌==◌, is_some,
  if◌then◌else◌, find,
}
use shld.Access.Permissions.{AgentPermissions, everything}
use shld.Accounts.ApiKeys.{is_well_formed_api_key}
use shld.Action.{Action, ok, err, pure, lift, gets, modify, or_throw, ◌>>=◌, ◌>>◌}
use shld.Domain.Errors.{authorization, record_missing}
use shld.Services.Requests.{AuthenticatedAgent}
use shld.Store.{Db}
use shld.Store.Accounts.{AgentType, github, AgentIdentity, ApiKeyCredential}
use shld.Store.Table.{find_by, update_by}
use shld.Store.Writes.{fresh_id}

-- `apiKeyCredential.findUnique({ where: { keyHash } })`
unfoldable pub find_credential : String → Db → Option ApiKeyCredential
find_credential hash db = find (λ c. str_eq c.key_hash hash) db.api_key_credentials

-- the agent that a credential includes
unfoldable pub find_agent : ℕ → Db → Option AgentIdentity
find_agent id db = find_by (λ a. a.id) id db.agent_identities

abbrev pub touch_agent : ℕ → Db → Db
touch_agent id db = record db {
  agent_identities =
      update_by (λ a. a.id) id (λ a. record a { last_used_at = some db.now }) db.agent_identities;
}

abbrev pub identity_of : AgentIdentity → AuthenticatedAgent
identity_of a = record {
  agent_identity_id = a.id;
  organization_id = a.organization_id;
  type = a.type;
  permissions = a.permissions;
}

unfoldable pub authenticate_agent_by_api_key :
    (List ℕ → String) → List ℕ → Action Db AuthenticatedAgent
unfolding ◌>>=◌
authenticate_agent_by_api_key hash_api_key raw_key = do
  lift (if is_well_formed_api_key raw_key then ok tt else err authorization)
  found ← gets (find_credential (hash_api_key raw_key))
  credential ← or_throw found authorization
  lift (if is_some credential.revoked_at then err authorization else ok tt)
  row ← gets (find_agent credential.agent_identity_id)
  agent ← or_throw row record_missing
  modify (touch_agent agent.id)
  pure (identity_of agent)

abbrev pub is_github : AgentType → Bool
is_github github = true
is_github _ = false

-- `agentIdentity.findFirst({ where: { organizationId, type: "github" } })`
unfoldable pub find_github_agent : ℕ → Db → Option AgentIdentity
find_github_agent organization_id db =
    find (λ a. a.organization_id == organization_id && is_github a.type) db.agent_identities

abbrev pub github_permissions : AgentPermissions
github_permissions = record {
  repository_ids = everything;
  operations = "change_review" ∷ "fix_verification" ∷ [];
  target_environment_ids = everything;
  max_run_budget = 100000000;
  max_concurrent_runs = 10;
}

abbrev pub github_app : ℕ → ℕ → AgentIdentity
github_app organization_id id = record {
  id = id;
  organization_id = organization_id;
  name = "GitHub App";
  type = github;
  permissions = github_permissions;
  last_used_at = none;
}

unfoldable pub created_unless_found : ℕ → Option AgentIdentity → Action Db AgentIdentity
unfolding ◌>>=◌ fresh_id
created_unless_found organization_id (some identity) = pure identity
created_unless_found organization_id none = do
  id ← fresh_id
  modify
      (λ db. record db { agent_identities = github_app organization_id id ∷ db.agent_identities })
  pure (github_app organization_id id)

unfoldable pub get_or_create_github_agent_identity : ℕ → Action Db AuthenticatedAgent
unfolding ◌>>=◌ created_unless_found
get_or_create_github_agent_identity organization_id = do
  found ← gets (find_github_agent organization_id)
  identity ← created_unless_found organization_id found
  pure (identity_of identity)
