-- ===== src/Receipts/Render.antt =====
-- src/receipts/render-receipt-json.ts. Times stay numbers, and the name of a repository its two parts.
use shld.Prelude.{ℕ, Option, none, some, List, map, String}
use shld.Prelude.Int.{ℤ}
use shld.Domain.FindingStatus.{FindingStatus}
use shld.Policy.Classifier.{ChangeClassification}
use shld.Receipts.Gather.{
  ReceiptData, ReceiptFinding, ReceiptValidation, ReceiptRemediation, ReceiptEngineExecution,
  ReceiptRoutingDecision, ReceiptSourceLocation,
}
use shld.Receipts.Status.{ReceiptStatus}
use shld.Store.Accounts.{AgentType}
use shld.Store.Rows.{
  Engine, FindingSeverity, FindingConfidence, FindingClass, RunType, RemediationOutcome,
  VerificationOutcome,
}

pub record EngineUsed : Type 0 where
  pub engine : Engine
  pub engine_version : String
  pub operation : String

pub record JsonFinding : Type 0 where
  pub id : ℕ
  pub title : String
  pub category : String
  pub severity : FindingSeverity
  pub confidence : FindingConfidence
  pub status : FindingStatus
  pub discovery_engine : Engine
  pub finding_class : FindingClass
  pub source_evidence : List ReceiptSourceLocation
  pub runtime_evidence : List ReceiptValidation
  pub fix_commit : Option String
  pub source_revalidation_result : Option RemediationOutcome
  pub runtime_retest_result : Option RemediationOutcome
  pub final_status : Option (Option VerificationOutcome)

pub record ReceiptJson : Type 0 where
  pub run_id : ℕ
  pub organization : String
  pub repository : String × String
  pub pull_request : Option ℕ
  pub base_commit : String
  pub head_commit : String
  pub requesting_agent : String × AgentType
  pub policy_version : String
  pub run_type : RunType
  pub status : ReceiptStatus
  pub classification : Option ChangeClassification
  pub routing_decisions : List ReceiptRoutingDecision
  pub engines_used : List EngineUsed
  pub findings : List JsonFinding
  pub total_cost : ℕ
  pub total_input_tokens : ℕ
  pub total_output_tokens : ℕ
  pub duration_ms : Option ℤ
  pub artifact_references : List ℕ
  pub started_at : Option ℕ
  pub completed_at : Option ℕ
  pub failure_reason : Option String
  pub generated_at : ℕ

-- `f.remediation?.field ?? null`
abbrev pub field_of {ℓ} :
    {A : Type ℓ} → (ReceiptRemediation → A) → Option ReceiptRemediation → Option A
field_of field none = none
field_of field (some r) = some (field r)

abbrev pub json_finding : ReceiptFinding → JsonFinding
json_finding f = record {
  id = f.id;
  title = f.title;
  category = f.category;
  severity = f.severity;
  confidence = f.confidence;
  status = f.status;
  discovery_engine = f.discovery_engine;
  finding_class = f.finding_class;
  source_evidence = f.source_locations;
  runtime_evidence = f.validations;
  fix_commit = field_of (λ r. r.fix_commit_sha) f.remediation;
  source_revalidation_result = field_of (λ r. r.source_revalidation_status) f.remediation;
  runtime_retest_result = field_of (λ r. r.runtime_retest_status) f.remediation;
  final_status = field_of (λ r. r.final_status) f.remediation;
}

abbrev pub engine_used : ReceiptEngineExecution → EngineUsed
engine_used e = record {
  engine = e.engine;
  engine_version = e.engine_version;
  operation = e.operation;
}

-- `now` is the time of the rendering
unfoldable pub render_receipt_json : ReceiptData → ReceiptStatus → ℕ → ReceiptJson
render_receipt_json d status now = record {
  run_id = d.run_id;
  organization = d.organization_name;
  repository = (d.repository_owner, d.repository_name);
  pull_request = d.pull_request_number;
  base_commit = d.base_sha;
  head_commit = d.head_sha;
  requesting_agent = (d.requesting_agent_name, d.requesting_agent_type);
  policy_version = d.policy_version;
  run_type = d.run_type;
  status = status;
  classification = d.classification;
  routing_decisions = d.routing_decisions;
  engines_used = map engine_used d.engine_executions;
  findings = map json_finding d.findings;
  total_cost = d.total_cost;
  total_input_tokens = d.total_input_tokens;
  total_output_tokens = d.total_output_tokens;
  duration_ms = d.duration_ms;
  artifact_references = d.artifact_ids;
  started_at = d.started_at;
  completed_at = d.completed_at;
  failure_reason = d.failure_reason;
  generated_at = now;
}
