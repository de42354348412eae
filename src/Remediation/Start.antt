-- ===== src/Remediation/Start.antt =====
-- src/remediation/start-fix-verification.ts
use shld.Prelude.{ℕ, String, Bool, true, false, Option, none, some}
use shld.Action.{Action, pure, gets, or_throw, transaction, ◌>>=◌, ◌>>◌}
use shld.Domain.Errors.{not_found, remediation_not_found}
use shld.Domain.FindingStatus.{retesting}
use shld.Domain.Transitions.{find_finding, TransitionFindingStatusParams, transition_finding_status}
use shld.Store.{Db}
use shld.Store.Writes.{NewRun, find_remediation, create_run}
use shld.Store.Rows.{Finding, Remediation, AuditActor, RemediationOutcome, not_applicable, RunType}

pub record StartFixVerificationParams : Type 0 where
  pub finding_id : ℕ
  pub organization_id : ℕ
  pub repository_id : ℕ
  pub requested_by_agent_id : ℕ
  pub target_environment_id : Option ℕ
  pub policy_version : String
  pub idempotency_key : String
  pub actor : AuditActor

pub record StartFixVerificationOutcome : Type 0 where
  pub run_id : ℕ
  pub requires_runtime_retest : Bool
  pub fix_commit_sha : String

-- `status !== "not_applicable"`
abbrev pub is_applicable : RemediationOutcome → Bool
is_applicable not_applicable = false
is_applicable _ = true

-- the run that is created, and the finding's transition
abbrev pub retest_run : StartFixVerificationParams → Finding → Remediation → NewRun
retest_run params finding remediation = record {
  organization_id = params.organization_id;
  repository_id = params.repository_id;
  requested_by_agent_id = params.requested_by_agent_id;
  run_type = RunType.fix_verification;
  base_sha = finding.last_seen_commit;
  head_sha = remediation.fix_commit_sha;
  pull_request_number = none;
  target_environment_id = params.target_environment_id;
  policy_version = params.policy_version;
  idempotency_key = params.idempotency_key;
}

abbrev pub retest_move : StartFixVerificationParams → Finding → ℕ → TransitionFindingStatusParams
retest_move params finding run_id = record {
  finding_id = finding.id;
  to = retesting;
  actor = params.actor;
  event_type = "finding.retesting";
  run_id = some run_id;
}

unfoldable pub start_fix_verification_body :
    StartFixVerificationParams → Action Db StartFixVerificationOutcome
start_fix_verification_body params = do
  found ← gets (find_finding params.finding_id)
  finding ← or_throw found not_found
  fix ← gets (find_remediation params.finding_id)
  remediation ← or_throw fix remediation_not_found
  run_id ← create_run (retest_run params finding remediation)
  transition_finding_status (retest_move params finding run_id)
  pure (record {
    run_id = run_id;
    requires_runtime_retest = is_applicable remediation.runtime_retest_status;
    fix_commit_sha = remediation.fix_commit_sha;
  })

unfoldable pub start_fix_verification :
    StartFixVerificationParams → Action Db StartFixVerificationOutcome
unfolding start_fix_verification_body
start_fix_verification params = transaction (start_fix_verification_body params)
