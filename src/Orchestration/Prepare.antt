-- ===== src/Orchestration/Prepare.antt =====
-- src/orchestration/handlers/prepare-and-classify.ts. The snapshot of the repository, which
-- src/repo-prep makes with git, is a parameter: what it returns, or throws, for a run.
use shld.Prelude.{
  ℕ, String, Bool, true, false, not, ◌&&◌, Option, none, some, List, ◌∷◌, any, keep, find, map,
  ◌==◌, str_eq, if◌then◌else◌,
}
use shld.Action.{Action, Result, throw, lift, gets, modify, or_throw, transaction, ◌>>=◌, ◌>>◌}
use shld.Domain.Errors.{record_missing, plain_error, unique_violation}
use shld.Domain.FindingStatus
use shld.Domain.FindingStatus.{dismissed}
use shld.Domain.RunStatus.{classifying, source_review_running}
use shld.Domain.Transitions.{find_run, transition_run_status}
use shld.Engines.DeepSec.{StoredArtifact}
use shld.Orchestration.Finalize.{is_about_run}
use shld.Orchestration.SourceReview.{find_snapshot, run_move}
use shld.Orchestration.Webhooks.{enqueue_job}
use shld.Policy.Classifier.{classify_change}
use shld.Queue.Jobs.{
  JobType, job_type_name, run_deepsec_diff, run_deepsec_full, run_deepsec_revalidation,
}
use shld.Queue.Jobs
use shld.Store.{Db}
use shld.Store.Rows.{
  RunType, fix_verification, repository_scan, RepositoryPolicyConfig, RunClassification,
  SecurityRun, source_snapshot, of_run_job, run_payload, finding_payload,
}
use shld.Store.Table.{find_by}
use shld.Store.Writes.{create_artifact}

-- the text that is stored, and the paths of `changedFiles`
pub record SourceSnapshot : Type 0 where
  pub text : String
  pub changed_files : List String

abbrev pub is_verification : RunType → Bool
is_verification fix_verification = true
is_verification _ = false

-- The job that follows. The retest that a verification run is for is read off the audit log; the
-- source asserts that its event names a finding.
unfoldable pub queue_next : SecurityRun → Bool → Action Db (Unit {0})
queue_next run true = do
  found ← gets (λ db.
      find (λ e. is_about_run run.id e && str_eq e.event_type "finding.retesting") db.audit_events)
  event ← or_throw found record_missing
  finding_id ← or_throw event.finding_id record_missing
  enqueue_job (record {
    job_type = run_deepsec_revalidation;
    organization_id = run.organization_id;
    idempotency_key = of_run_job run.idempotency_key "run_deepsec_revalidation";
    payload = finding_payload run.id finding_id;
  })
queue_next run false = enqueue_job (record {
  job_type = Jobs.classify_change;
  organization_id = run.organization_id;
  idempotency_key = of_run_job run.idempotency_key "classify_change";
  payload = run_payload run.id;
})

unfoldable pub prepare_repository_handler :
    (String → String → StoredArtifact)
    → (SecurityRun → Result SourceSnapshot)
    → ℕ
    → Action Db (Unit {0})
prepare_repository_handler store materialize run_id = do
  found ← gets (find_run run_id)
  run ← or_throw found record_missing
  transaction (transition_run_status (run_move run.id classifying "run.classifying"))
  snapshot ← lift (materialize run)
  create_artifact (record {
    organization_id = run.organization_id;
    run_id = run.id;
    type = source_snapshot;
    storage_location = (store snapshot.text "snapshots").storage_location;
    content_hash = (store snapshot.text "snapshots").content_hash;
    changed_files = snapshot.changed_files;
  })
  queue_next run (is_verification run.run_type)

-- `runClassification.create`; the run's id is `@unique`
unfoldable pub create_classification : RunClassification → Action Db (Unit {0})
create_classification row = do
  taken ← gets (λ db. any (λ c. c.run_id == row.run_id) db.run_classifications)
  if taken
      then throw unique_violation
      else modify (λ db. record db { run_classifications = row ∷ db.run_classifications })

-- `policyConfig?.sensitivePathPatterns`
abbrev patterns_of : Option RepositoryPolicyConfig → Option (List String)
patterns_of none = none
patterns_of (some c) = some c.sensitive_path_patterns

-- the categories of the repository's findings that are not dismissed
unfoldable pub prior_categories : ℕ → Db → List String
prior_categories repository_id db =
    map (λ f. f.category)
      (keep (λ f. f.repository_id == repository_id && not (FindingStatus.same f.status dismissed))
        db.findings)

abbrev pub review_job : RunType → JobType
review_job repository_scan = run_deepsec_full
review_job _ = run_deepsec_diff

unfoldable pub classify_change_handler : ℕ → Action Db (Unit {0})
classify_change_handler run_id = do
  found ← gets (find_run run_id)
  run ← or_throw found record_missing
  stored ← gets (find_snapshot run.id)
  snapshot ← or_throw stored plain_error
  config ←
      gets (λ db. find_by (λ c. c.repository_id) run.repository_id db.repository_policy_configs)
  prior ← gets (prior_categories run.repository_id)
  create_classification (record {
    run_id = run.id;
    classification = classify_change (record {
      changed_files =
          map (λ path. record { path = path; change_type = "modified" }) snapshot.changed_files;
      sensitive_path_patterns = patterns_of config;
      previous_finding_categories = some prior;
    });
    changed_files = snapshot.changed_files;
  })
  transaction
      (transition_run_status (run_move run.id source_review_running "run.source_review_running"))
  enqueue_job (record {
    job_type = review_job run.run_type;
    organization_id = run.organization_id;
    idempotency_key = of_run_job run.idempotency_key (job_type_name (review_job run.run_type));
    payload = run_payload run.id;
  })
