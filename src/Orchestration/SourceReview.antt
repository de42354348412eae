-- ===== src/Orchestration/SourceReview.antt =====
-- src/orchestration/handlers/run-deepsec.ts. The engine is a parameter: what `deepsecAdapter.run`
-- returns, or throws, for a run, its snapshot and the finding to revalidate.
use shld.Prelude.{
  ℕ, String, Bool, true, false, ◌&&◌, Option, none, some, List, [], ◌∷◌, find, ◌==◌, if◌then◌else◌,
}
use shld.Action.{Action, Result, lift, gets, or_throw, transaction, ◌>>=◌, ◌>>◌}
use shld.Domain.Errors.{record_missing, plain_error}
use shld.Domain.RunStatus.{
  RunStatus, source_review_running, source_review_completed, validation_running,
}
use shld.Domain.Transitions.{find_finding, find_run, transition_run_status}
use shld.Engines.DeepSec.{
  StoredArtifact, NormalizedFinding, DeepSecRunResult, RevalidationVerdict, true_positive,
  false_positive, unknown, persist_deepsec_run,
}
use shld.Orchestration.Finalize.{finalize_run}
use shld.Orchestration.Webhooks.{enqueue_job}
use shld.Queue.Jobs.{apply_routing_policy, run_strix_retest}
use shld.Remediation.Complete.{complete_fix_verification, bool_to_remediation_outcome}
use shld.Remediation.Start.{is_applicable}
use shld.Store.{Db}
use shld.Store.Rows.{
  Artifact, ArtifactType, Finding, Remediation, RunType, SecurityRun, repository_scan,
  source_snapshot, system_actor, of_run_job, of_finding_job, run_payload, finding_payload,
}
use shld.Store.Writes.{find_remediation, update_remediation}

abbrev pub is_snapshot : ArtifactType → Bool
is_snapshot source_snapshot = true
is_snapshot _ = false

-- the newest snapshot of the run
unfoldable pub find_snapshot : ℕ → Db → Option Artifact
find_snapshot run_id db = find (λ a. a.run_id == run_id && is_snapshot a.type) db.artifacts

abbrev pub operation_of : RunType → String
operation_of repository_scan = "full_audit"
operation_of _ = "change_review"

abbrev pub run_move : ℕ → RunStatus → String → shld.Domain.Transitions.TransitionRunStatusParams
run_move run_id to event_type = record {
  run_id = run_id;
  to = to;
  actor = system_actor;
  event_type = event_type;
  failure_reason = none;
}

abbrev pub first_verdict : List NormalizedFinding → RevalidationVerdict
first_verdict [] = unknown
first_verdict (f ∷ fs) = elim f.revalidation_verdict [ none ↦ unknown | some v ↦ v ]

-- `verdict === "unknown" ? null : verdict === "false_positive"`
unfoldable pub revalidation_passed : RevalidationVerdict → Option Bool
revalidation_passed unknown = none
revalidation_passed false_positive = some true
revalidation_passed true_positive = some false

module _ (store : String → String → StoredArtifact) where
  unfoldable pub run_deepsec_handler :
      (SecurityRun → Artifact → Result DeepSecRunResult) → ℕ → Action Db (Unit {0})
  run_deepsec_handler engine run_id = do
    found ← gets (find_run run_id)
    run ← or_throw found record_missing
    stored ← gets (find_snapshot run.id)
    snapshot ← or_throw stored plain_error
    result ← lift (engine run snapshot)
    persist_deepsec_run store (record {
      organization_id = run.organization_id;
      repository_id = run.repository_id;
      run_id = run.id;
      operation = operation_of run.run_type;
      head_sha = run.head_sha;
      result = result;
    })
    transaction (
        transition_run_status
          (run_move run.id source_review_completed "run.source_review_completed"))
    enqueue_job (record {
      job_type = apply_routing_policy;
      organization_id = run.organization_id;
      idempotency_key = of_run_job run.idempotency_key "routing";
      payload = run_payload run.id;
    })

-- the branch of a finding that no runtime retest is owed for
unfoldable pub complete_source_only : SecurityRun → ℕ → Option Bool → Action Db (Unit {0})
complete_source_only run finding_id passed = do
  complete_fix_verification (record {
    finding_id = finding_id;
    run_id = run.id;
    actor = system_actor;
    source_revalidation_passed = passed;
    runtime_retest_required = false;
    runtime_retest_passed = none;
    target_build_matches_fix_commit = false;
    operational_failure = false;
  })
  finalize_run run.id

-- `data: { sourceRevalidationStatus }`
abbrev pub revalidated : Option Bool → Remediation → Remediation
revalidated passed r = record r { source_revalidation_status = bool_to_remediation_outcome passed }

-- the branch of a finding that was confirmed at run time
unfoldable pub queue_retest : SecurityRun → ℕ → Option Bool → Action Db (Unit {0})
queue_retest run finding_id passed = do
  update_remediation finding_id (revalidated passed)
  transaction (transition_run_status (run_move run.id validation_running "run.validation_running"))
  enqueue_job (record {
    job_type = run_strix_retest;
    organization_id = run.organization_id;
    idempotency_key = of_finding_job run.idempotency_key "strix_retest" finding_id;
    payload = finding_payload run.id finding_id;
  })

-- what follows the source revalidation
unfoldable pub after_revalidation :
    SecurityRun → ℕ → Option Remediation → Option Bool → Action Db (Unit {0})
after_revalidation run finding_id fix passed = do
  remediation ← or_throw fix plain_error
  if is_applicable remediation.runtime_retest_status
      then queue_retest run finding_id passed
      else complete_source_only run finding_id passed

module _ (store : String → String → StoredArtifact) where
  unfoldable pub run_deepsec_revalidation_handler :
      (SecurityRun → Artifact → Finding → Result DeepSecRunResult) → ℕ → ℕ → Action Db (Unit {0})
  run_deepsec_revalidation_handler engine run_id finding_id = do
    found_run ← gets (find_run run_id)
    run ← or_throw found_run record_missing
    found ← gets (find_finding finding_id)
    finding ← or_throw found record_missing
    fix ← gets (find_remediation finding_id)
    stored ← gets (find_snapshot run.id)
    snapshot ← or_throw stored plain_error
    transaction
        (transition_run_status (run_move run.id source_review_running "run.source_review_running"))
    result ← lift (engine run snapshot finding)
    persist_deepsec_run store (record {
      organization_id = run.organization_id;
      repository_id = run.repository_id;
      run_id = run.id;
      operation = "fix_revalidation";
      head_sha = run.head_sha;
      result = result;
    })
    transaction (
        transition_run_status
          (run_move run.id source_review_completed "run.source_review_completed"))
    after_revalidation run finding.id fix (revalidation_passed (first_verdict result.findings))
