-- ===== src/Orchestration/Runtime.antt =====
-- src/orchestration/handlers/run-strix.ts. The engine is a parameter: what `strixAdapter.run`
-- returns, or throws, for a run, the finding and the target. The mission is input of the engine.
use shld.Prelude.{ℕ, String, Bool, true, false, Option, none, some, List, keep, length, ◌==◌}
use shld.Action.{Action, Result, lift, gets, or_throw, when, ◌>>=◌, ◌>>◌}
use shld.Correlation.BuildMatch.{commit_matches_build}
use shld.Correlation.Correlate.{correlate_strix_validation}
use shld.Domain.Errors.{record_missing, plain_error}
use shld.Domain.FindingStatus
use shld.Domain.FindingStatus.{validation_queued}
use shld.Domain.Transitions.{find_finding, find_run}
use shld.Engines.DeepSec.{StoredArtifact}
use shld.Engines.Strix.{StrixRunResult, persist_strix_run}
use shld.Orchestration.Finalize.{findings_of_run, finalize_run}
use shld.Remediation.Complete.{complete_fix_verification}
use shld.Store.{Db}
use shld.Store.Rows.{
  Finding, RemediationOutcome, passed, failed, SecurityRun, TargetEnvironment, Verdict, confirmed,
  not_reproduced, system_actor,
}
use shld.Store.Table.{find_by}
use shld.Store.Writes.{find_remediation}

-- the head commit stands in for the build that the target runs
abbrev pub assumed_target_build_id : String → String
assumed_target_build_id head_sha = head_sha

unfoldable pub find_target : ℕ → Db → Option TargetEnvironment
find_target id db = find_by (λ t. t.id) id db.target_environments

-- `remainingQueued`
abbrev pub remaining_queued : ℕ → Db → ℕ
remaining_queued run_id db =
    length (keep (λ f. FindingStatus.same f.status validation_queued) (findings_of_run run_id db))

-- `status === "passed" ? true : status === "failed" ? false : null`
abbrev pub source_passed : RemediationOutcome → Option Bool
source_passed passed = some true
source_passed failed = some false
source_passed _ = none

abbrev pub runtime_passed : Verdict → Option Bool
runtime_passed not_reproduced = some true
runtime_passed confirmed = some false
runtime_passed _ = none

abbrev pub has_failed : Verdict → Bool
has_failed Verdict.failed = true
has_failed _ = false

module _ (store : String → String → StoredArtifact) (sha256 : List ℕ → String)
    (key_text : ℕ → String)
    (engine : SecurityRun → Finding → TargetEnvironment → Result StrixRunResult) where
  unfoldable pub run_strix_validation_handler : ℕ → ℕ → Action Db (Unit {0})
  run_strix_validation_handler run_id finding_id = do
    found_run ← gets (find_run run_id)
    run ← or_throw found_run record_missing
    target_id ← or_throw run.target_environment_id plain_error
    found ← gets (find_finding finding_id)
    finding ← or_throw found record_missing
    found_target ← gets (find_target target_id)
    target ← or_throw found_target record_missing
    result ← lift (engine run finding target)
    correlate_strix_validation store sha256 key_text (record {
      organization_id = run.organization_id;
      repository_id = run.repository_id;
      run_id = run.id;
      finding_id = some finding.id;
      target_environment_id = target.id;
      expected_commit_sha = run.head_sha;
      actual_target_build_id = some (assumed_target_build_id run.head_sha);
      test_complete = true;
      result = result;
    })
    remaining ← gets (remaining_queued run.id)
    when (remaining == 0) (finalize_run run.id)

  unfoldable pub run_strix_retest_handler : ℕ → ℕ → Action Db (Unit {0})
  run_strix_retest_handler run_id finding_id = do
    found_run ← gets (find_run run_id)
    run ← or_throw found_run record_missing
    target_id ← or_throw run.target_environment_id plain_error
    found ← gets (find_finding finding_id)
    finding ← or_throw found record_missing
    found_target ← gets (find_target target_id)
    target ← or_throw found_target record_missing
    fix ← gets (find_remediation finding_id)
    remediation ← or_throw fix record_missing
    result ← lift (engine run finding target)
    persist_strix_run store (record {
      organization_id = run.organization_id;
      repository_id = run.repository_id;
      run_id = run.id;
      finding_id = finding.id;
      target_environment_id = target.id;
      target_build_id = some (assumed_target_build_id run.head_sha);
      result = result;
      override_finding_status = some none;
      build_mismatch = false;
    })
    complete_fix_verification (record {
      finding_id = finding.id;
      run_id = run.id;
      actor = system_actor;
      source_revalidation_passed = source_passed remediation.source_revalidation_status;
      runtime_retest_required = true;
      runtime_retest_passed = runtime_passed result.validation.status;
      target_build_matches_fix_commit =
          commit_matches_build remediation.fix_commit_sha
            (some (assumed_target_build_id run.head_sha));
      operational_failure = has_failed result.validation.status;
    })
    finalize_run run.id
