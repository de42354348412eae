-- ===== src/Store.antt =====
-- The database of prisma/schema.prisma, as far as the modelled code reads and writes it: a table
-- is a list of rows, with the newest row first. `next_id` stands for the generator of `cuid()`
-- keys, and `now` for the clock that `new Date()` reads. `outbox` has the jobs that were handed to the
-- queue, which is no table.
pub mod Table
pub mod Rows
pub mod Accounts
pub mod Writes
use shld.Prelude.{ℕ, suc, Option, List, ◌∷◌}
use Rows.{
  Finding, SecurityRun, AuditEvent, Validation, Remediation, RoutingDecision, EngineExecution,
  Artifact, TargetEnvironment, Repository, RepositoryPolicyConfig, RunClassification,
  WebhookEndpoint, WebhookDelivery, JobRequest,
}
use Accounts.{
  AgentIdentity, ApiKeyCredential, User, Session, IdempotencyRecord, InboundGithubEvent,
  Organization, Receipt,
}

pub record Db : Type 0 where
  pub findings : List Finding
  pub runs : List SecurityRun
  pub audit_events : List AuditEvent
  pub validations : List Validation
  pub remediations : List Remediation
  pub routing_decisions : List RoutingDecision
  pub engine_executions : List EngineExecution
  pub artifacts : List Artifact
  pub agent_identities : List AgentIdentity
  pub repositories : List Repository
  pub repository_policy_configs : List RepositoryPolicyConfig
  pub run_classifications : List RunClassification
  pub target_environments : List TargetEnvironment
  pub webhook_endpoints : List WebhookEndpoint
  pub webhook_deliveries : List WebhookDelivery
  pub api_key_credentials : List ApiKeyCredential
  pub users : List User
  pub sessions : List Session
  pub idempotency_records : List IdempotencyRecord
  pub inbound_github_events : List InboundGithubEvent
  pub organizations : List Organization
  pub receipts : List Receipt
  pub outbox : List JobRequest
  pub next_id : ℕ
  pub now : ℕ
