-- ===== src/Receipts/Gather/Data.antt =====
-- The data of a receipt: the types of src/receipts/gather-receipt-data.ts.
use shld.Prelude.{ℕ, Bool, Option, List, String}
use shld.Prelude.Int.{ℤ}
use shld.Domain.FindingStatus.{FindingStatus}
use shld.Domain.RunStatus.{RunStatus}
use shld.Policy.Classifier.{ChangeClassification}
use shld.Store.Accounts.{AgentType}
use shld.Store.Rows.{
  Engine, FindingSeverity, FindingConfidence, FindingClass, RunType, Verdict, Evidence,
  RemediationOutcome, VerificationOutcome,
}

pub record ReceiptSourceLocation : Type 0 where
  pub file_path : String
  pub start_line : Option ℕ
  pub end_line : Option ℕ
  pub symbol : Option String

pub record ReceiptValidation : Type 0 where
  pub status : Verdict
  pub endpoint : Option String
  pub method : Option String
  pub evidence_summary : Evidence
  pub target_build_id : Option String
  pub proof_artifact_id : Option ℕ
  pub validated_at : ℕ

pub record ReceiptRemediation : Type 0 where
  pub fix_commit_sha : String
  pub source_revalidation_status : RemediationOutcome
  pub runtime_retest_status : RemediationOutcome
  pub regression_test_status : RemediationOutcome
  pub final_status : Option VerificationOutcome

pub record ReceiptFinding : Type 0 where
  pub id : ℕ
  pub title : String
  pub description : String
  pub category : String
  pub severity : FindingSeverity
  pub confidence : FindingConfidence
  pub status : FindingStatus
  pub discovery_engine : Engine
  pub finding_class : FindingClass
  pub source_locations : List ReceiptSourceLocation
  pub validations : List ReceiptValidation
  pub remediation : Option ReceiptRemediation

pub record ReceiptEngineExecution : Type 0 where
  pub engine : Engine
  pub operation : String
  pub engine_version : String
  pub input_tokens : ℕ
  pub output_tokens : ℕ
  pub estimated_cost : ℕ
  pub output_artifact_id : ℕ

pub record ReceiptRoutingDecision : Type 0 where
  pub finding_id : ℕ
  pub escalate : Bool
  pub policy_version : String

pub record ReceiptData : Type 0 where
  pub run_id : ℕ
  pub organization_id : ℕ
  pub organization_name : String
  pub repository_owner : String
  pub repository_name : String
  pub pull_request_number : Option ℕ
  pub base_sha : String
  pub head_sha : String
  pub run_type : RunType
  pub run_status : RunStatus
  pub requesting_agent_name : String
  pub requesting_agent_type : AgentType
  pub policy_version : String
  pub classification : Option ChangeClassification
  pub routing_decisions : List ReceiptRoutingDecision
  pub engine_executions : List ReceiptEngineExecution
  pub findings : List ReceiptFinding
  pub total_cost : ℕ
  pub total_input_tokens : ℕ
  pub total_output_tokens : ℕ
  pub duration_ms : Option ℤ
  pub artifact_ids : List ℕ
  pub started_at : Option ℕ
  pub completed_at : Option ℕ
  pub failure_reason : Option String
