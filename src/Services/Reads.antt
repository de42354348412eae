-- ===== src/Services/Reads.antt =====
-- src/api/services/get-run.ts, and what finding-services.ts reads. Columns that the store leaves out
-- are left out of the results.
use shld.Prelude.{ℕ, Option, List, map, String, keep, ◌==◌}
use shld.Access.Authorize.{find_repository}
use shld.Access.Permissions.{assert_same_organization}
use shld.Accounts.Agents.{find_agent}
use shld.Action.{Action, lift, gets, or_throw, ◌>>=◌, ◌>>◌}
use shld.Domain.Errors.{not_found, record_missing}
use shld.Domain.FindingStatus.{FindingStatus}
use shld.Domain.RunStatus.{
  RunStatus, queued, classifying, source_review_running, source_review_completed,
  validation_waiting_for_target, validation_running, awaiting_fix, fix_verification_running,
  completed, blocked, failed, cancelled,
}
use shld.Domain.Transitions.{find_finding, find_run}
use shld.Orchestration.Finalize.{findings_of_run}
use shld.Receipts.Gather.{total, executions_of, validations_of}
use shld.Store.{Db}
use shld.Store.Accounts.{AgentType, AgentIdentity}
use shld.Store.Rows.{
  EngineExecution, Finding, FindingSeverity, Remediation, Repository, RoutingDecision,
  RunClassification, SecurityRun, Validation,
}
use shld.Store.Table.{find_by}
use shld.Store.Writes.{find_remediation}

-- NEXT_ACTION_BY_STATUS, which has every status
abbrev pub next_action_by_status : RunStatus → String
next_action_by_status queued = "Wait for classification to begin."
next_action_by_status classifying = "Wait for the change classifier."
next_action_by_status source_review_running = "Wait for DeepSec source review."
next_action_by_status source_review_completed = "Wait for routing policy evaluation."
next_action_by_status validation_waiting_for_target =
    "Provide or wait for an authorized target environment."
next_action_by_status validation_running = "Wait for Strix validation to complete."
next_action_by_status awaiting_fix = "Submit a fix commit for the confirmed finding(s)."
next_action_by_status fix_verification_running = "Wait for fix verification to complete."
next_action_by_status completed = "None — review passed."
next_action_by_status blocked = "Submit a fix commit for the confirmed finding(s)."
next_action_by_status failed = "Inspect failureReason and retry if appropriate."
next_action_by_status cancelled = "None — review was cancelled."

-- the columns of a finding that a run's page selects
pub record FindingSummary : Type 0 where
  pub id : ℕ
  pub title : String
  pub severity : FindingSeverity
  pub status : FindingStatus
  pub category : String

abbrev pub summary_of : Finding → FindingSummary
summary_of f = record {
  id = f.id;
  title = f.title;
  severity = f.severity;
  status = f.status;
  category = f.category;
}

pub record GetRunResult : Type 0 where
  pub run_id : ℕ
  pub status : RunStatus
  pub agent_id : ℕ
  pub agent_name : String
  pub agent_type : AgentType
  pub repository_id : ℕ
  pub repository_owner : String
  pub repository_name : String
  pub base_sha : String
  pub head_sha : String
  pub pull_request_number : Option ℕ
  pub classification : Option RunClassification
  pub routing_decisions : List RoutingDecision
  pub engine_executions : List EngineExecution
  pub findings : List FindingSummary
  pub total_cost : ℕ
  pub errors : Option String
  pub next_action : String
  pub started_at : Option ℕ
  pub completed_at : Option ℕ

unfoldable pub run_result : Db → SecurityRun → AgentIdentity → Repository → GetRunResult
unfolding total findings_of_run
run_result db run by_ repository = record {
  run_id = run.id;
  status = run.status;
  agent_id = by_.id;
  agent_name = by_.name;
  agent_type = by_.type;
  repository_id = repository.id;
  repository_owner = repository.owner;
  repository_name = repository.name;
  base_sha = run.base_sha;
  head_sha = run.head_sha;
  pull_request_number = run.pull_request_number;
  classification = find_by (λ c. c.run_id) run.id db.run_classifications;
  routing_decisions = keep (λ d. d.run_id == run.id) db.routing_decisions;
  engine_executions = executions_of run.id db;
  findings = map summary_of (findings_of_run run.id db);
  total_cost = total (λ e. e.estimated_cost) 0 (executions_of run.id db);
  errors = run.failure_reason;
  next_action = next_action_by_status run.status;
  started_at = run.started_at;
  completed_at = run.completed_at;
}

-- the agent and the repository are relations that a run always has
unfoldable pub get_run : ℕ → ℕ → Action Db GetRunResult
unfolding ◌>>=◌ run_result
get_run organization_id run_id = do
  found ← gets (find_run run_id)
  run ← or_throw found not_found
  lift (assert_same_organization organization_id run.organization_id)
  who ← gets (find_agent run.requested_by_agent_id)
  by_ ← or_throw who record_missing
  where_ ← gets (find_repository run.repository_id)
  repository ← or_throw where_ record_missing
  gets (λ db. run_result db run by_ repository)

-- a finding with its relations; its source locations are columns of the store
pub record FullFinding : Type 0 where
  pub finding : Finding
  pub validations : List Validation
  pub remediation : Option Remediation

unfoldable pub full_finding : Db → Finding → FullFinding
unfolding find_remediation
full_finding db f = record {
  finding = f;
  validations = validations_of f.id db;
  remediation = find_remediation f.id db;
}

unfoldable pub list_run_findings : ℕ → ℕ → Action Db (List FullFinding)
unfolding ◌>>=◌ full_finding
list_run_findings organization_id run_id = do
  found ← gets (find_run run_id)
  run ← or_throw found not_found
  lift (assert_same_organization organization_id run.organization_id)
  gets (λ db. map (full_finding db) (findings_of_run run_id db))

unfoldable pub get_finding : ℕ → ℕ → Action Db FullFinding
unfolding ◌>>=◌ full_finding
get_finding organization_id id = do
  found ← gets (find_finding id)
  finding ← or_throw found not_found
  lift (assert_same_organization organization_id finding.organization_id)
  gets (λ db. full_finding db finding)
