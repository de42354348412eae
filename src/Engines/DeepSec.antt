-- ===== src/Engines/DeepSec.antt =====
-- src/adapters/deepsec/persist.ts. The artifact store, which names a file by the hash of its
-- content, is a parameter.
use shld.Prelude.{ℕ, String, Option, none, some, List, [], ◌∷◌, ◌++◌}
use shld.Action.{Action, pure, gets, when, collect, transaction, ◌>>=◌, ◌>>◌}
use shld.Domain.Creation.{NewFinding, create_finding, find_by_fingerprint}
use shld.Domain.FindingStatus.{source_confirmed}
use shld.Domain.Transitions.{transition_finding_status, update_finding}
use shld.Policy.Routing.{is_high_confidence}
use shld.Store.{Db}
use shld.Store.Writes.{create_artifact, create_engine_execution}
use shld.Store.Rows.{
  Finding, FindingSeverity, FindingConfidence, Engine, FindingClass, SourceLocation, ArtifactType,
  system_actor,
}

pub data RevalidationVerdict : Type 0 where
  true_positive false_positive unknown : RevalidationVerdict

-- `NormalizedFinding` of normalize.ts
pub record NormalizedFinding : Type 0 where
  pub title : String
  pub description : String
  pub category : String
  pub cwe : Option String
  pub severity : FindingSeverity
  pub confidence : FindingConfidence
  pub file_path : String
  pub start_line : Option ℕ
  pub end_line : Option ℕ
  pub symbol : Option String
  pub recommendation : Option String
  pub fingerprint : String
  pub revalidation_verdict : Option RevalidationVerdict

pub record DeepSecRunResult : Type 0 where
  pub exit_code : ℕ
  pub raw_stdout : String
  pub findings : List NormalizedFinding
  pub input_tokens : ℕ
  pub output_tokens : ℕ
  pub estimated_cost : ℕ
  pub engine_version : String

pub record StoredArtifact : Type 0 where
  pub storage_location : String
  pub content_hash : String

pub record UpsertFindingParams : Type 0 where
  pub organization_id : ℕ
  pub repository_id : ℕ
  pub run_id : ℕ
  pub head_sha : String
  pub finding : NormalizedFinding

abbrev pub location_of : UpsertFindingParams → SourceLocation
location_of params = record {
  file_path = params.finding.file_path;
  start_line = params.finding.start_line;
  end_line = params.finding.end_line;
  commit_sha = params.head_sha;
  symbol = params.finding.symbol;
}

abbrev pub new_finding : UpsertFindingParams → NewFinding
new_finding params = record {
  organization_id = params.organization_id;
  repository_id = params.repository_id;
  fingerprint = params.finding.fingerprint;
  title = params.finding.title;
  description = params.finding.description;
  category = params.finding.category;
  cwe = params.finding.cwe;
  severity = params.finding.severity;
  confidence = params.finding.confidence;
  discovery_engine = Engine.deepsec;
  finding_class = FindingClass.source;
  commit = params.head_sha;
  source_locations = location_of params ∷ [];
}

-- what a finding that reappears gains
abbrev pub seen_again : UpsertFindingParams → Finding → Finding
seen_again params f = record f {
  last_seen_commit = params.head_sha;
  source_locations = f.source_locations ++ (location_of params ∷ []);
}

-- the two branches, on the finding with the same fingerprint, if any
unfoldable pub upsert_found : UpsertFindingParams → Option Finding → Action Db ℕ
upsert_found params none = do
  id ← create_finding (new_finding params) params.run_id
  when (is_high_confidence params.finding.confidence) (
      transition_finding_status (record {
        finding_id = id;
        to = source_confirmed;
        actor = system_actor;
        event_type = "finding.source_confirmed";
        run_id = some params.run_id;
      }))
  pure id
upsert_found params (some existing) = do
  update_finding existing.id (seen_again params)
  pure existing.id

unfoldable pub upsert_finding : UpsertFindingParams → Action Db ℕ
upsert_finding params = do
  existing ← gets (find_by_fingerprint params.repository_id params.finding.fingerprint)
  upsert_found params existing

pub record PersistDeepSecRunParams : Type 0 where
  pub organization_id : ℕ
  pub repository_id : ℕ
  pub run_id : ℕ
  pub operation : String
  pub head_sha : String
  pub result : DeepSecRunResult

pub record PersistDeepSecRunOutcome : Type 0 where
  pub engine_execution_id : ℕ
  pub finding_ids : List ℕ

module _ (store : String → String → StoredArtifact) where
  unfoldable pub persist_deepsec_body : PersistDeepSecRunParams → Action Db PersistDeepSecRunOutcome
  persist_deepsec_body params = do
    let stored = store params.result.raw_stdout "deepsec"
    artifact_id ← create_artifact (record {
      organization_id = params.organization_id;
      run_id = params.run_id;
      type = ArtifactType.deepsec_raw_output;
      storage_location = stored.storage_location;
      content_hash = stored.content_hash;
      changed_files = [];
    })
    execution_id ← create_engine_execution (λ id. record {
      id = id;
      run_id = params.run_id;
      engine = Engine.deepsec;
      operation = params.operation;
      output_artifact_id = artifact_id;
      engine_version = params.result.engine_version;
      exit_code = params.result.exit_code;
      estimated_cost = params.result.estimated_cost;
      input_tokens = params.result.input_tokens;
      output_tokens = params.result.output_tokens;
    })
    finding_ids ← collect params.result.findings (λ finding. upsert_finding (record {
      organization_id = params.organization_id;
      repository_id = params.repository_id;
      run_id = params.run_id;
      head_sha = params.head_sha;
      finding = finding;
    }))
    pure (record { engine_execution_id = execution_id; finding_ids = finding_ids })

  unfoldable pub persist_deepsec_run : PersistDeepSecRunParams → Action Db PersistDeepSecRunOutcome
  unfolding persist_deepsec_body
  persist_deepsec_run params = transaction (persist_deepsec_body params)
