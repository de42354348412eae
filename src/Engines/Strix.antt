-- ===== src/Engines/Strix.antt =====
-- src/adapters/strix/persist.ts, with the result types of src/adapters/strix/strix-adapter.ts and
-- types.ts. The artifact store is a parameter.
use Prim.Native.String
use shld.Prelude.{ℕ, String, Bool, Option, none, some, [], str_eq, List, if◌then◌else◌}
use shld.Action.{Action, pure, gets, or_throw, transaction, ◌>>=◌, ◌>>◌}
use shld.Correlation.Resolve.{status_of_verdict}
use shld.Domain.Errors.{record_missing}
use shld.Domain.FindingStatus
use shld.Domain.FindingStatus.{FindingStatus}
use shld.Domain.Transitions.{find_finding, transition_finding_status}
use shld.Engines.DeepSec.{StoredArtifact}
use shld.Store.{Db}
use shld.Store.Writes.{create_artifact, create_engine_execution, create_validation}
use shld.Store.Rows.{Verdict, as_reported, of_other_build, Engine, ArtifactType, system_actor}

pub record StrixCodeLocation : Type 0 where
  pub file_path : String
  pub start_line : Option ℕ
  pub end_line : Option ℕ
  pub symbol : Option String

pub record StrixNewDiscovery : Type 0 where
  pub title : String
  pub category : String
  pub severity : String
  pub confidence : String

pub record NormalizedValidation : Type 0 where
  pub status : Verdict
  pub endpoint : Option String
  pub method : Option String
  pub evidence_summary : Option String
  pub proof_of_concept : Option String
  pub code_locations : List StrixCodeLocation
  pub new_discovery : Option StrixNewDiscovery

pub record StrixRunResult : Type 0 where
  pub exit_code : ℕ
  pub raw_stdout : String
  pub validation : NormalizedValidation
  pub input_tokens : ℕ
  pub output_tokens : ℕ
  pub estimated_cost : ℕ
  pub engine_version : String

-- `override_finding_status` is `none` where the source leaves it `undefined`, and `some none` for
-- an explicit `null`.
pub record PersistStrixRunParams : Type 0 where
  pub organization_id : ℕ
  pub repository_id : ℕ
  pub run_id : ℕ
  pub finding_id : ℕ
  pub target_environment_id : ℕ
  pub target_build_id : Option String
  pub result : StrixRunResult
  pub override_finding_status : Option (Option FindingStatus)
  pub build_mismatch : Bool

pub record PersistStrixRunOutcome : Type 0 where
  pub engine_execution_id : ℕ
  pub validation_id : ℕ
  pub finding_status : FindingStatus

-- `nextFindingStatus`
unfoldable pub next_finding_status : Option (Option FindingStatus) → Verdict → Option FindingStatus
unfolding status_of_verdict
next_finding_status none verdict = status_of_verdict verdict
next_finding_status (some override) verdict = override

-- `if (nextFindingStatus) await transitionFindingStatus(…)`
unfoldable pub advance_finding : ℕ → ℕ → Option FindingStatus → Action Db (Unit {0})
advance_finding finding_id run_id none = pure tt
advance_finding finding_id run_id (some status) = transition_finding_status (record {
  finding_id = finding_id;
  to = status;
  actor = system_actor;
  event_type = String.◌++◌ "finding." (FindingStatus.name status);
  run_id = some run_id;
})

module _ (store : String → String → StoredArtifact) where
  -- the artifact of a proof of concept; an empty text counts as none
  unfoldable pub store_proof : PersistStrixRunParams → Option String → Action Db (Option ℕ)
  store_proof params none = pure none
  store_proof params (some poc) = if str_eq poc "" then pure none else do
    let stored = store poc "strix-poc"
    id ← create_artifact (record {
      organization_id = params.organization_id;
      run_id = params.run_id;
      type = ArtifactType.proof_of_concept;
      storage_location = stored.storage_location;
      content_hash = stored.content_hash;
      changed_files = [];
    })
    pure (some id)

  unfoldable pub persist_strix_body : PersistStrixRunParams → Action Db PersistStrixRunOutcome
  persist_strix_body params = do
    let validation = params.result.validation
    let stored = store params.result.raw_stdout "strix"
    output_id ← create_artifact (record {
      organization_id = params.organization_id;
      run_id = params.run_id;
      type = ArtifactType.strix_raw_output;
      storage_location = stored.storage_location;
      content_hash = stored.content_hash;
      changed_files = [];
    })
    poc_id ← store_proof params validation.proof_of_concept
    execution_id ← create_engine_execution (λ id. record {
      id = id;
      run_id = params.run_id;
      engine = Engine.strix;
      operation = "run_strix_validation";
      output_artifact_id = output_id;
      engine_version = params.result.engine_version;
      exit_code = params.result.exit_code;
      estimated_cost = params.result.estimated_cost;
      input_tokens = params.result.input_tokens;
      output_tokens = params.result.output_tokens;
    })
    now ← gets (λ db. db.now)
    validation_id ← create_validation (λ id. record {
      id = id;
      finding_id = params.finding_id;
      engine_execution_id = execution_id;
      status = validation.status;
      target_environment_id = params.target_environment_id;
      target_build_id = params.target_build_id;
      endpoint = validation.endpoint;
      method = validation.method;
      evidence_summary =
          if params.build_mismatch
          then of_other_build validation.evidence_summary
          else as_reported validation.evidence_summary;
      proof_artifact_id = poc_id;
      validated_at = now;
    })
    advance_finding params.finding_id params.run_id
        (next_finding_status params.override_finding_status validation.status)
    found ← gets (find_finding params.finding_id)
    finding ← or_throw found record_missing
    pure (record {
      engine_execution_id = execution_id;
      validation_id = validation_id;
      finding_status = finding.status;
    })

  unfoldable pub persist_strix_run : PersistStrixRunParams → Action Db PersistStrixRunOutcome
  unfolding persist_strix_body
  persist_strix_run params = transaction (persist_strix_body params)
