-- ===== src/Services/Requests.antt =====
-- src/api/services/finding-services.ts, cancel-run.ts and create-security-review.ts, with
-- src/orchestration/run-idempotency-key.ts. Parameters: the hash of node:crypto and the text of a
-- key.
use shld.Prelude.{ℕ, String, Option, none, some, List, ◌++◌}
use shld.Prelude.Text.{codes, to_lower_case}
use shld.Access.Permissions.{AgentPermissions, assert_operation_allowed, assert_same_organization}
use shld.Access.Authorize.{authorize_target_environment}
use shld.Action.{Action, pure, lift, gets, or_throw, transaction, when, ◌>>=◌, ◌>>◌}
use shld.Domain.Errors.{not_found}
use shld.Domain.FindingStatus
use shld.Domain.FindingStatus.{FindingStatus, source_confirmed, validation_queued}
use shld.Domain.RunStatus.{cancelled}
use shld.Domain.Transitions.{
  find_finding, find_run, transition_finding_status, transition_run_status,
}
use shld.Orchestration.Webhooks.{enqueue_job}
use shld.Queue.Jobs.{prepare_repository, run_strix_validation}
use shld.Remediation.Start.{start_fix_verification}
use shld.Remediation.Submit.{submit_fix}
use shld.Store.{Db}
pub use shld.Store.Accounts.{AgentType, mcp, api, github, internal}
use shld.Store.Rows.{
  ActorType, agent, system, AuditActor, Finding, Remediation, RunType, change_review,
  repository_scan, finding_validation, fix_verification, of_run_job, of_finding_job, run_payload,
  finding_payload,
}
use shld.Store.Writes.{create_run, find_remediation}

pub record AuthenticatedAgent : Type 0 where
  pub agent_identity_id : ℕ
  pub organization_id : ℕ
  pub type : AgentType
  pub permissions : AgentPermissions

abbrev actor_type : AgentType → ActorType
actor_type internal = system
actor_type _ = agent

-- `{ type: agent.type === "internal" ? "system" : "agent", id: agent.agentIdentityId }`
abbrev pub actor_of : AuthenticatedAgent → AuditActor
actor_of a = record { type = actor_type a.type; id = some a.agent_identity_id }

abbrev pub run_type_name : RunType → String
run_type_name change_review = "change_review"
run_type_name repository_scan = "repository_scan"
run_type_name finding_validation = "finding_validation"
run_type_name fix_verification = "fix_verification"

pub record RunIdempotencyKeyParams : Type 0 where
  pub organization_id : ℕ
  pub repository_id : ℕ
  pub base_sha : String
  pub head_sha : String
  pub run_type : RunType
  pub policy_version : String

abbrev colons : List ℕ
colons = codes "::"

module _ (sha256 : List ℕ → String) (key_text : ℕ → String) where
  unfoldable pub compute_run_idempotency_key : RunIdempotencyKeyParams → String
  compute_run_idempotency_key params = sha256 (
      codes (key_text params.organization_id)
      ++ colons
      ++ codes (key_text params.repository_id)
      ++ colons
      ++ to_lower_case (codes params.head_sha)
      ++ colons
      ++ to_lower_case (codes params.base_sha)
      ++ colons
      ++ codes (run_type_name params.run_type)
      ++ colons
      ++ codes params.policy_version)

unfoldable pub load_owned_finding : AuthenticatedAgent → ℕ → Action Db Finding
load_owned_finding a finding_id = do
  found ← gets (find_finding finding_id)
  finding ← or_throw found not_found
  lift (assert_same_organization a.organization_id finding.organization_id)
  pure finding

-- `if (finding.status === "source_confirmed")`
unfoldable pub queue_if_confirmed : AuthenticatedAgent → Finding → Action Db (Unit {0})
queue_if_confirmed a finding = when (FindingStatus.same finding.status source_confirmed) (
    transaction (
      transition_finding_status (record {
        finding_id = finding.id;
        to = validation_queued;
        actor = actor_of a;
        event_type = "finding.validation_queued";
        run_id = none;
      })))

module _ (sha256 : List ℕ → String) (key_text : ℕ → String) where
  unfoldable pub validate_finding : AuthenticatedAgent → ℕ → ℕ → Action Db ℕ
  validate_finding a finding_id target_environment_id = do
    lift (assert_operation_allowed a.permissions "validate_finding")
    finding ← load_owned_finding a finding_id
    target ← authorize_target_environment (record {
      organization_id = a.organization_id;
      repository_id = finding.repository_id;
      target_environment_id = target_environment_id;
      permissions = a.permissions;
    })
    queue_if_confirmed a finding
    let key = compute_run_idempotency_key sha256 key_text (record {
      organization_id = a.organization_id;
      repository_id = finding.repository_id;
      base_sha = finding.last_seen_commit;
      head_sha = finding.last_seen_commit;
      run_type = finding_validation;
      policy_version = "2026-01-01";
    })
    run_id ← create_run (record {
      organization_id = a.organization_id;
      repository_id = finding.repository_id;
      requested_by_agent_id = a.agent_identity_id;
      run_type = finding_validation;
      base_sha = finding.last_seen_commit;
      head_sha = finding.last_seen_commit;
      pull_request_number = none;
      target_environment_id = some target.id;
      policy_version = "2026-01-01";
      idempotency_key = key;
    })
    enqueue_job (record {
      job_type = run_strix_validation;
      organization_id = a.organization_id;
      idempotency_key = of_finding_job key "strix" finding.id;
      payload = finding_payload run_id finding.id;
    })
    pure run_id

unfoldable pub submit_fix_for_finding : AuthenticatedAgent → ℕ → String → Action Db (Unit {0})
submit_fix_for_finding a finding_id fix_commit_sha = do
  lift (assert_operation_allowed a.permissions "submit_fix")
  load_owned_finding a finding_id
  submit_fix
      (record { finding_id = finding_id; fix_commit_sha = fix_commit_sha; actor = actor_of a })
  pure tt

-- `if (targetEnvironmentId)`
unfoldable pub check_given_target : AuthenticatedAgent → ℕ → Option ℕ → Action Db (Unit {0})
check_given_target a repository_id none = pure tt
check_given_target a repository_id (some id) = do
  authorize_target_environment (record {
    organization_id = a.organization_id;
    repository_id = repository_id;
    target_environment_id = id;
    permissions = a.permissions;
  })
  pure tt

-- `remediation?.fixCommitSha ?? finding.lastSeenCommit`
abbrev fix_commit : Option Remediation → String → String
fix_commit none last_seen = last_seen
fix_commit (some r) last_seen = r.fix_commit_sha

module _ (sha256 : List ℕ → String) (key_text : ℕ → String) where
  unfoldable pub verify_fix_for_finding : AuthenticatedAgent → ℕ → Option ℕ → Action Db ℕ
  verify_fix_for_finding a finding_id target_environment_id = do
    lift (assert_operation_allowed a.permissions "verify_fix")
    finding ← load_owned_finding a finding_id
    check_given_target a finding.repository_id target_environment_id
    remediation ← gets (find_remediation finding_id)
    let key = compute_run_idempotency_key sha256 key_text (record {
      organization_id = a.organization_id;
      repository_id = finding.repository_id;
      base_sha = finding.last_seen_commit;
      head_sha = fix_commit remediation finding.last_seen_commit;
      run_type = fix_verification;
      policy_version = "2026-01-01";
    })
    outcome ← start_fix_verification (record {
      finding_id = finding_id;
      organization_id = a.organization_id;
      repository_id = finding.repository_id;
      requested_by_agent_id = a.agent_identity_id;
      target_environment_id = target_environment_id;
      policy_version = "2026-01-01";
      idempotency_key = key;
      actor = actor_of a;
    })
    enqueue_job (record {
      job_type = prepare_repository;
      organization_id = a.organization_id;
      idempotency_key = of_run_job key "prepare";
      payload = run_payload outcome.run_id;
    })
    pure outcome.run_id

unfoldable pub cancel_run : AuthenticatedAgent → ℕ → Action Db (Unit {0})
cancel_run a run_id = do
  found ← gets (find_run run_id)
  run ← or_throw found not_found
  lift (assert_same_organization a.organization_id run.organization_id)
  transaction (
      transition_run_status (record {
        run_id = run_id;
        to = cancelled;
        actor = actor_of a;
        event_type = "run.cancelled";
        failure_reason = none;
      }))
