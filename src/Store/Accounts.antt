-- ===== src/Store/Accounts.antt =====
-- The rows of prisma/schema.prisma about who may call: organizations, users and their sessions,
-- agents and their keys; and the records that make a repeated call harmless.
use shld.Prelude.{ℕ, String, Option}
use shld.Access.Permissions.{AgentPermissions}
use shld.Receipts.Status.{ReceiptStatus}

pub record Organization : Type 0 where
  pub id : ℕ
  pub name : String

pub data AgentType : Type 0 where
  mcp api github internal : AgentType

-- `permissions` as `parseAgentPermissions` reads them
pub record AgentIdentity : Type 0 where
  pub id : ℕ
  pub organization_id : ℕ
  pub name : String
  pub type : AgentType
  pub permissions : AgentPermissions
  pub last_used_at : Option ℕ

pub record ApiKeyCredential : Type 0 where
  pub agent_identity_id : ℕ
  pub key_hash : String
  pub revoked_at : Option ℕ

pub data UserRole : Type 0 where
  owner admin member : UserRole

pub record User : Type 0 where
  pub id : ℕ
  pub organization_id : ℕ
  pub role : UserRole

pub record Session : Type 0 where
  pub user_id : ℕ
  pub token_hash : String
  pub expires_at : ℕ
  pub revoked_at : Option ℕ

-- the body of the response as its text
pub record IdempotencyRecord : Type 0 where
  pub organization_id : ℕ
  pub endpoint : String
  pub idempotency_key : String
  pub request_hash : String
  pub response_status : ℕ
  pub response_body : String

pub record InboundGithubEvent : Type 0 where
  pub delivery_id : String
  pub event_type : String

pub record Receipt : Type 0 where
  pub id : ℕ
  pub run_id : ℕ
  pub status : ReceiptStatus
  pub json_artifact_id : Option ℕ
  pub markdown_artifact_id : Option ℕ
  pub generated_at : ℕ
