-- ===== src/Store/Rows.antt =====
-- The rows and enums of prisma/schema.prisma. Columns that no modelled code reads or writes are
-- left out: most of the `Json` metadata, and the timestamps that the database fills in itself. A key is a
-- number, a commit or a text a string, and an amount of money a number of millionths of a dollar.
pub mod Deliveries
pub use Deliveries.*
use shld.Prelude.{ℕ, String, Bool, Option, none, List}
use shld.Domain.FindingStatus.{FindingStatus}
use shld.Domain.RunStatus.{RunStatus}
use shld.Policy.Classifier.{ChangeClassification}
use shld.Queue.Jobs.{JobType}

pub data FindingSeverity : Type 0 where
  critical high medium low info : FindingSeverity

pub data FindingConfidence : Type 0 where
  high medium low : FindingConfidence

-- the engines of `Engine`, and of `DiscoveryEngine` without `manual`
pub data Engine : Type 0 where
  deepsec strix : Engine

pub data FindingClass : Type 0 where
  source dynamic : FindingClass

pub data ActorType : Type 0 where
  agent user system github : ActorType

pub record AuditActor : Type 0 where
  pub type : ActorType
  pub id : Option ℕ

-- `{ type: "system" }`
abbrev pub system_actor : AuditActor
system_actor = record { type = system; id = none }

pub record SourceLocation : Type 0 where
  pub file_path : String
  pub start_line : Option ℕ
  pub end_line : Option ℕ
  pub commit_sha : String
  pub symbol : Option String

pub record Finding : Type 0 where
  pub id : ℕ
  pub organization_id : ℕ
  pub repository_id : ℕ
  pub fingerprint : String
  pub title : String
  pub description : String
  pub category : String
  pub cwe : Option String
  pub severity : FindingSeverity
  pub confidence : FindingConfidence
  pub status : FindingStatus
  pub discovery_engine : Engine
  pub finding_class : FindingClass
  pub first_seen_commit : String
  pub last_seen_commit : String
  pub source_locations : List SourceLocation

pub data RunType : Type 0 where
  change_review repository_scan finding_validation fix_verification : RunType

pub record SecurityRun : Type 0 where
  pub id : ℕ
  pub organization_id : ℕ
  pub repository_id : ℕ
  pub requested_by_agent_id : ℕ
  pub run_type : RunType
  pub status : RunStatus
  pub base_sha : String
  pub head_sha : String
  pub pull_request_number : Option ℕ
  pub target_environment_id : Option ℕ
  pub policy_version : String
  pub idempotency_key : String
  pub started_at : Option ℕ
  pub completed_at : Option ℕ
  pub failure_reason : Option String

-- the status that an audit event names, of a finding or of a run
pub data AuditState : Type 0 where
  of_finding : FindingStatus → AuditState
  of_run : RunStatus → AuditState

pub record AuditEvent : Type 0 where
  pub organization_id : ℕ
  pub run_id : Option ℕ
  pub finding_id : Option ℕ
  pub actor : AuditActor
  pub event_type : String
  pub previous_state : Option AuditState
  pub new_state : Option AuditState

-- the verdicts of `StrixVerdict`; the column's default `pending` is never left in place
pub data Verdict : Type 0 where
  confirmed not_reproduced inconclusive failed : Verdict

-- The evidence summary of a validation, as the engine reported it, or behind the notice that the
-- target ran another build.
pub data Evidence : Type 0 where
  as_reported of_other_build : Option String → Evidence

pub record Validation : Type 0 where
  pub id : ℕ
  pub finding_id : ℕ
  pub engine_execution_id : ℕ
  pub status : Verdict
  pub target_environment_id : ℕ
  pub target_build_id : Option String
  pub endpoint : Option String
  pub method : Option String
  pub evidence_summary : Evidence
  pub proof_artifact_id : Option ℕ
  pub validated_at : ℕ

pub data RemediationOutcome : Type 0 where
  pending passed failed not_applicable inconclusive : RemediationOutcome

pub data VerificationOutcome : Type 0 where
  verified_fixed still_exploitable partially_fixed inconclusive verification_failed :
      VerificationOutcome

-- `final_status` is `none` for `pending`
pub record Remediation : Type 0 where
  pub id : ℕ
  pub finding_id : ℕ
  pub fix_commit_sha : String
  pub source_revalidation_status : RemediationOutcome
  pub runtime_retest_status : RemediationOutcome
  pub regression_test_status : RemediationOutcome
  pub final_status : Option VerificationOutcome

pub record RoutingDecision : Type 0 where
  pub run_id : ℕ
  pub finding_id : ℕ
  pub policy_version : String
  pub escalate : Bool

pub record EngineExecution : Type 0 where
  pub id : ℕ
  pub run_id : ℕ
  pub engine : Engine
  pub operation : String
  pub output_artifact_id : ℕ
  pub engine_version : String
  pub exit_code : ℕ
  pub estimated_cost : ℕ
  pub input_tokens : ℕ
  pub output_tokens : ℕ

pub data ArtifactType : Type 0 where
  source_snapshot deepsec_raw_output deepsec_config strix_raw_output strix_instruction
        proof_of_concept receipt_json receipt_markdown other :
      ArtifactType

pub record Artifact : Type 0 where
  pub id : ℕ
  pub organization_id : ℕ
  pub run_id : ℕ
  pub type : ArtifactType
  pub storage_location : String
  pub content_hash : String
  -- `metadata.changedFiles` of a snapshot
  pub changed_files : List String

pub data TargetAuthorizationStatus : Type 0 where
  pending authorized expired revoked : TargetAuthorizationStatus

-- The columns that are read here. The mission that is built from the others goes to the engine.
pub record TargetEnvironment : Type 0 where
  pub id : ℕ
  pub organization_id : ℕ
  pub repository_id : ℕ
  pub authorization_status : TargetAuthorizationStatus
  pub authorization_expires_at : Option ℕ
  pub destructive_testing_allowed : Bool

pub data RepositoryStatus : Type 0 where
  pending active suspended : RepositoryStatus

pub record Repository : Type 0 where
  pub id : ℕ
  pub organization_id : ℕ
  pub owner : String
  pub name : String
  pub status : RepositoryStatus

pub record RepositoryPolicyConfig : Type 0 where
  pub repository_id : ℕ
  pub policy_version : String
  pub sensitive_path_patterns : List String

pub record RunClassification : Type 0 where
  pub run_id : ℕ
  pub classification : ChangeClassification
  pub changed_files : List String
