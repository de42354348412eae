-- ===== src/Receipts/Gather.antt =====
-- src/receipts/gather-receipt-data.ts and render-receipt-json.ts. Columns that the store leaves out
-- are left out here too: the status, the times and the failure of an engine's execution, the keys of
-- audit events, the creation time of a run and the reason of a routing decision.
pub mod Data
pub use Data.*
use shld.Prelude.{ℕ, ◌+◌, Bool, Option, none, some, List, [], ◌∷◌, map, String, keep, ◌==◌}
use shld.Prelude.Int.{ℤ, sub_ℕ}
use shld.Access.Authorize.{find_repository}
use shld.Accounts.Agents.{find_agent}
use shld.Action.{Action, gets, or_throw, ◌>>=◌}
use shld.Domain.Errors.{not_found, record_missing}
use shld.Domain.FindingStatus.{FindingStatus}
use shld.Domain.RunStatus.{RunStatus}
use shld.Domain.Transitions.{find_run}
use shld.Orchestration.Finalize.{findings_of_run}
use shld.Policy.Classifier.{ChangeClassification}
use shld.Store.{Db}
use shld.Store.Accounts.{AgentType, Organization, AgentIdentity}
use shld.Store.Rows.{
  Finding, SecurityRun, SourceLocation, Validation, Remediation, RoutingDecision, EngineExecution,
  Artifact, Engine, FindingSeverity, FindingConfidence, FindingClass, RunType, Verdict, Evidence,
  RemediationOutcome, VerificationOutcome, RunClassification, Repository,
}
use shld.Store.Table.{find_by}
use shld.Store.Writes.{find_remediation}

-- `executions.reduce((sum, e) => sum + …, 0)`
unfoldable pub total : (EngineExecution → ℕ) → ℕ → List EngineExecution → ℕ
total amount sum [] = sum
total amount sum (e ∷ es) = total amount (sum + amount e) es

-- `run.startedAt && run.completedAt ? completedAt - startedAt : null`
abbrev pub duration : Option ℕ → Option ℕ → Option ℤ
duration (some start) (some end_) = some (sub_ℕ end_ start)
duration _ _ = none

abbrev pub receipt_location : SourceLocation → ReceiptSourceLocation
receipt_location l = record {
  file_path = l.file_path;
  start_line = l.start_line;
  end_line = l.end_line;
  symbol = l.symbol;
}

abbrev pub receipt_validation : Validation → ReceiptValidation
receipt_validation v = record {
  status = v.status;
  endpoint = v.endpoint;
  method = v.method;
  evidence_summary = v.evidence_summary;
  target_build_id = v.target_build_id;
  proof_artifact_id = v.proof_artifact_id;
  validated_at = v.validated_at;
}

abbrev pub receipt_remediation : Option Remediation → Option ReceiptRemediation
receipt_remediation none = none
receipt_remediation (some r) = some (record {
  fix_commit_sha = r.fix_commit_sha;
  source_revalidation_status = r.source_revalidation_status;
  runtime_retest_status = r.runtime_retest_status;
  regression_test_status = r.regression_test_status;
  final_status = r.final_status;
})

abbrev pub validations_of : ℕ → Db → List Validation
validations_of finding_id db = keep (λ v. v.finding_id == finding_id) db.validations

unfoldable pub receipt_finding : Db → Finding → ReceiptFinding
unfolding find_remediation
receipt_finding db f = record {
  id = f.id;
  title = f.title;
  description = f.description;
  category = f.category;
  severity = f.severity;
  confidence = f.confidence;
  status = f.status;
  discovery_engine = f.discovery_engine;
  finding_class = f.finding_class;
  source_locations = map receipt_location f.source_locations;
  validations = map receipt_validation (validations_of f.id db);
  remediation = receipt_remediation (find_remediation f.id db);
}

abbrev pub receipt_execution : EngineExecution → ReceiptEngineExecution
receipt_execution e = record {
  engine = e.engine;
  operation = e.operation;
  engine_version = e.engine_version;
  input_tokens = e.input_tokens;
  output_tokens = e.output_tokens;
  estimated_cost = e.estimated_cost;
  output_artifact_id = e.output_artifact_id;
}

abbrev pub receipt_decision : RoutingDecision → ReceiptRoutingDecision
receipt_decision d = record {
  finding_id = d.finding_id;
  escalate = d.escalate;
  policy_version = d.policy_version;
}

abbrev pub classification_of : Option RunClassification → Option ChangeClassification
classification_of none = none
classification_of (some c) = some c.classification

-- the rows of a run's relations
abbrev pub executions_of : ℕ → Db → List EngineExecution
executions_of run_id db = keep (λ e. e.run_id == run_id) db.engine_executions

unfoldable pub receipt_data :
    Db → SecurityRun → Organization → Repository → AgentIdentity → ReceiptData
unfolding total receipt_finding findings_of_run
receipt_data db run organization repository agent_ = record {
  run_id = run.id;
  organization_id = run.organization_id;
  organization_name = organization.name;
  repository_owner = repository.owner;
  repository_name = repository.name;
  pull_request_number = run.pull_request_number;
  base_sha = run.base_sha;
  head_sha = run.head_sha;
  run_type = run.run_type;
  run_status = run.status;
  requesting_agent_name = agent_.name;
  requesting_agent_type = agent_.type;
  policy_version = run.policy_version;
  classification = classification_of (find_by (λ c. c.run_id) run.id db.run_classifications);
  routing_decisions = map receipt_decision (keep (λ d. d.run_id == run.id) db.routing_decisions);
  engine_executions = map receipt_execution (executions_of run.id db);
  findings = map (receipt_finding db) (findings_of_run run.id db);
  total_cost = total (λ e. e.estimated_cost) 0 (executions_of run.id db);
  total_input_tokens = total (λ e. e.input_tokens) 0 (executions_of run.id db);
  total_output_tokens = total (λ e. e.output_tokens) 0 (executions_of run.id db);
  duration_ms = duration run.started_at run.completed_at;
  artifact_ids =
      map (λ (a : Artifact). a.id) (keep (λ (a : Artifact). a.run_id == run.id) db.artifacts);
  started_at = run.started_at;
  completed_at = run.completed_at;
  failure_reason = run.failure_reason;
}

unfoldable pub gather_receipt_data : ℕ → Action Db ReceiptData
unfolding ◌>>=◌ receipt_data
gather_receipt_data run_id = do
  found ← gets (find_run run_id)
  run ← or_throw found not_found
  in_ ← gets (λ db. find_by (λ (o : Organization). o.id) run.organization_id db.organizations)
  organization ← or_throw in_ record_missing
  of_ ← gets (find_repository run.repository_id)
  repository ← or_throw of_ record_missing
  by_ ← gets (find_agent run.requested_by_agent_id)
  agent_ ← or_throw by_ record_missing
  gets (λ db. receipt_data db run organization repository agent_)
