-- ===== src/Correlation/Correlate.antt =====
-- src/correlation/correlate-strix-validation.ts. Parameters: the artifact store, the hash of
-- node:crypto, and the text of a key.
pub mod Params
pub use Params.*
use Prim.Native.String
use shld.Prelude.{
  ℕ, String, Bool, true, false, not, Option, none, some, List, [], ◌∷◌, get_or, or_else,
  if◌then◌else◌,
}
use shld.Action.{Action, pure, throw, gets, transaction, for_each, ◌>>=◌, ◌>>◌}
use shld.Correlation.BuildMatch.{commit_matches_build}
use shld.Correlation.Fingerprint.{compute_finding_fingerprint}
use shld.Correlation.Resolve.{resolve_finding_status_from_validation}
use shld.Domain.Creation.{NewFinding, create_finding, find_by_fingerprint}
use shld.Domain.Errors.{plain_error}
use shld.Domain.FindingStatus
use shld.Domain.FindingStatus.{FindingStatus, source_confirmed, validation_queued, confirmed}
use shld.Domain.Transitions.{transition_finding_status, update_finding}
use shld.Engines.DeepSec.{StoredArtifact}
use shld.Engines.Severity.{normalize_severity_loose, normalize_confidence_loose}
use shld.Engines.Strix.{StrixCodeLocation, StrixNewDiscovery, StrixRunResult, persist_strix_run}
use shld.Store.{Db}
use shld.Store.Writes.{create_artifact, create_engine_execution, create_validation}
use shld.Store.Rows.{
  Finding, Verdict, as_reported, Engine, FindingClass, SourceLocation, ArtifactType, system_actor,
}

-- the validation of either branch of `createDynamicFinding`
unfoldable pub confirm_validation : CorrelateStrixValidationParams → ℕ → ℕ → Action Db ℕ
confirm_validation params finding_id execution_id = do
  now ← gets (λ db. db.now)
  create_validation (λ id. record {
    id = id;
    finding_id = finding_id;
    engine_execution_id = execution_id;
    status = Verdict.confirmed;
    target_environment_id = params.target_environment_id;
    target_build_id = params.actual_target_build_id;
    endpoint = params.result.validation.endpoint;
    method = params.result.validation.method;
    evidence_summary = as_reported params.result.validation.evidence_summary;
    proof_artifact_id = none;
    validated_at = now;
  })

abbrev pub confirming_path : List FindingStatus
confirming_path = source_confirmed ∷ validation_queued ∷ confirmed ∷ []

-- the loop over `confirming_path`
unfoldable pub walk_to_confirmed : ℕ → ℕ → List FindingStatus → Action Db (Unit {0})
walk_to_confirmed finding_id run_id path = for_each path λ to. transition_finding_status (record {
  finding_id = finding_id;
  to = to;
  actor = system_actor;
  event_type = String.◌++◌ "finding." (FindingStatus.name to);
  run_id = some run_id;
})

-- the finding of a discovery that no finding covers yet
abbrev pub dynamic_finding :
    CorrelateStrixValidationParams → StrixNewDiscovery → String → NewFinding
dynamic_finding params discovery fingerprint = record {
  organization_id = params.organization_id;
  repository_id = params.repository_id;
  fingerprint = fingerprint;
  title = discovery.title;
  description = get_or params.result.validation.evidence_summary discovery.title;
  category = discovery.category;
  cwe = none;
  severity = normalize_severity_loose discovery.severity;
  confidence = normalize_confidence_loose discovery.confidence;
  discovery_engine = Engine.strix;
  finding_class = FindingClass.dynamic;
  commit = params.expected_commit_sha;
  source_locations =
      locations_of params.expected_commit_sha
        (first_location params.result.validation.code_locations);
}

-- what a known finding gains
abbrev pub seen_at : CorrelateStrixValidationParams → Finding → Finding
seen_at params f = record f { last_seen_commit = params.expected_commit_sha }

-- the part after the engine execution is recorded
unfoldable pub attach_discovery :
    CorrelateStrixValidationParams
    → NewFinding
    → ℕ
    → Option Finding
    → Action Db CorrelateStrixValidationOutcome
attach_discovery params new execution_id (some existing) = do
  update_finding existing.id (seen_at params)
  validation_id ← confirm_validation params existing.id execution_id
  pure (record {
    engine_execution_id = execution_id;
    validation_id = validation_id;
    finding_id = existing.id;
    finding_status = existing.status;
    is_new_finding = false;
    build_mismatch = build_mismatch params;
  })
attach_discovery params new execution_id none = do
  id ← create_finding new params.run_id
  walk_to_confirmed id params.run_id confirming_path
  validation_id ← confirm_validation params id execution_id
  pure (record {
    engine_execution_id = execution_id;
    validation_id = validation_id;
    finding_id = id;
    finding_status = confirmed;
    is_new_finding = true;
    build_mismatch = build_mismatch params;
  })

abbrev pub is_confirmed : Verdict → Bool
is_confirmed Verdict.confirmed = true
is_confirmed _ = false

module _ (store : String → String → StoredArtifact) (sha256 : List ℕ → String)
    (key_text : ℕ → String) where
  abbrev fingerprint_of : CorrelateStrixValidationParams → StrixNewDiscovery → String
  fingerprint_of params discovery =
      let location = first_location params.result.validation.code_locations in
      compute_finding_fingerprint sha256 (record {
        repository_id = key_text params.repository_id;
        category = discovery.category;
        file_path =
            get_or (or_else (file_path_of location) params.result.validation.endpoint) "unknown";
        symbol = symbol_of location;
        title = discovery.title;
      })

  unfoldable pub create_dynamic_finding :
      CorrelateStrixValidationParams → StrixNewDiscovery → Action Db CorrelateStrixValidationOutcome
  create_dynamic_finding params discovery =
      let fingerprint = fingerprint_of params discovery in
      let stored = store params.result.raw_stdout "strix" in
      transaction (do
        output_id ← create_artifact (record {
          organization_id = params.organization_id;
          run_id = params.run_id;
          type = ArtifactType.strix_raw_output;
          storage_location = stored.storage_location;
          content_hash = stored.content_hash;
          changed_files = [];
        })
        execution_id ← create_engine_execution (λ id. record {
          id = id;
          run_id = params.run_id;
          engine = Engine.strix;
          operation = "run_strix_validation";
          output_artifact_id = output_id;
          engine_version = params.result.engine_version;
          exit_code = params.result.exit_code;
          estimated_cost = params.result.estimated_cost;
          input_tokens = params.result.input_tokens;
          output_tokens = params.result.output_tokens;
        })
        existing ← gets (find_by_fingerprint params.repository_id fingerprint)
        attach_discovery params (dynamic_finding params discovery fingerprint) execution_id
            existing)

  -- a mission that was not tied to a finding
  unfoldable pub correlate_discovery :
      CorrelateStrixValidationParams
      → Option StrixNewDiscovery
      → Action Db CorrelateStrixValidationOutcome
  correlate_discovery params none = throw plain_error
  correlate_discovery params (some discovery) =
      if not (is_confirmed params.result.validation.status)
      then throw plain_error
      else create_dynamic_finding params discovery

  -- a mission that was tied to one
  unfoldable pub correlate_existing :
      CorrelateStrixValidationParams → ℕ → Action Db CorrelateStrixValidationOutcome
  correlate_existing params finding_id = do
    let mismatch = build_mismatch params
    outcome ← persist_strix_run store (record {
      organization_id = params.organization_id;
      repository_id = params.repository_id;
      run_id = params.run_id;
      finding_id = finding_id;
      target_environment_id = params.target_environment_id;
      target_build_id = params.actual_target_build_id;
      result = params.result;
      override_finding_status = some (
          resolve_finding_status_from_validation (record {
            verdict = params.result.validation.status;
            build_matches = not mismatch;
            test_complete = params.test_complete;
          }));
      build_mismatch = mismatch;
    })
    pure (record {
      engine_execution_id = outcome.engine_execution_id;
      validation_id = outcome.validation_id;
      finding_id = finding_id;
      finding_status = outcome.finding_status;
      is_new_finding = false;
      build_mismatch = mismatch;
    })

  -- the test on `params.findingId`
  unfoldable pub correlate_mission :
      CorrelateStrixValidationParams → Option ℕ → Action Db CorrelateStrixValidationOutcome
  correlate_mission params (some finding_id) = correlate_existing params finding_id
  correlate_mission params none = correlate_discovery params params.result.validation.new_discovery

  unfoldable pub correlate_strix_validation :
      CorrelateStrixValidationParams → Action Db CorrelateStrixValidationOutcome
  unfolding correlate_mission
  correlate_strix_validation params = correlate_mission params params.finding_id
