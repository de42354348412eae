-- ===== src/Accounts/AgentLaws.antt =====
-- src/auth/authenticate-agent.ts: which keys are let in, and the agent of GitHub's events.
use shld.Prelude.{
  suc, ℕ, ◌≡◌, refl, inl, inr, true, false, some, List, ◌∷◌, String, is_some, ==_iff, Option-cases,
}
use shld.Action.{ok, err}
use shld.Domain.Errors.{DomainError}
use shld.Services.Requests.{AuthenticatedAgent}
use shld.Store.{Db}
use shld.Store.Accounts.{AgentIdentity, ApiKeyCredential}
use shld.Accounts.ApiKeys.{is_well_formed_api_key}
use shld.Accounts.Agents.{
  find_credential, find_agent, touch_agent, identity_of, authenticate_agent_by_api_key,
  find_github_agent, github_app, get_or_create_github_agent_identity,
}

module _ (hash_api_key : List ℕ → String) (raw_key : List ℕ) (db : Db) where
  -- the key has the form of one, its hash is that of a credential that is not revoked, and the
  -- credential is the agent's
  pub record IsKeyOf (a : AgentIdentity) : Type 0 where
    pub credential : ApiKeyCredential
    pub well_formed : is_well_formed_api_key raw_key ≡ true
    pub found : find_credential (hash_api_key raw_key) db ≡ some credential
    pub unrevoked : is_some credential.revoked_at ≡ false
    pub held : find_agent credential.agent_identity_id db ≡ some a

  abbrev pub Admitted : Type 0
  Admitted =
      (a : AgentIdentity) × IsKeyOf a
      × (authenticate_agent_by_api_key hash_api_key raw_key db
          ≡ (ok (identity_of a), touch_agent a.id db))

  abbrev pub Refused : Type 0
  Refused =
      (e : DomainError) × (authenticate_agent_by_api_key hash_api_key raw_key db ≡ (err e, db))
      × ((a : AgentIdentity) → ¬ IsKeyOf a)

-- The agent of an organization's GitHub events is created once: the second call answers with the
-- same agent and changes nothing.
pub record IsSettled (organization_id : ℕ) (db : Db) (a : AuthenticatedAgent) (after : Db)
    : Type 0 where
  pub first : get_or_create_github_agent_identity organization_id db ≡ (ok a, after)
  pub second : get_or_create_github_agent_identity organization_id after ≡ (ok a, after)

-- the database with the agent, which stands under a new key
abbrev with_agent : ℕ → Db → Db
with_agent organization_id db = record db {
  next_id = suc db.next_id;
  agent_identities = github_app organization_id db.next_id ∷ db.agent_identities;
}

pub get_or_create_github_agent_identity-IsSettled :
    (organization_id : ℕ) (db : Db)
    → (a : AuthenticatedAgent) × (after : Db) × IsSettled organization_id db a after
unfolding get_or_create_github_agent_identity find_github_agent
get_or_create_github_agent_identity-IsSettled organization_id db =
    elim (Option-cases (find_github_agent organization_id db)) [
      | inr (a, found) ↦ (identity_of a, db, record { first = rw found; second = rw found })
      | inl missing ↦ (
        identity_of (github_app organization_id db.next_id),
        with_agent organization_id db,
        record {
          first = rw missing;
          second = rw ((==_iff organization_id organization_id).1 refl);
        },
      )
    ]
