-- ===== src/Remediation/Complete.antt =====
-- src/remediation/complete-fix-verification.ts
use Prim.Native.String
use shld.Prelude.{ℕ, Bool, Option, none, some, if◌then◌else◌}
use shld.Action.{Action, pure, transaction, ◌>>◌}
use shld.Domain.FindingStatus
use shld.Domain.FindingStatus.{FindingStatus}
use shld.Domain.Transitions.{transition_finding_status}
use shld.Remediation.Outcome.{determine_verification_outcome}
use shld.Store.{Db}
use shld.Store.Writes.{update_remediation}
use shld.Store.Rows.{
  AuditActor, VerificationOutcome, RemediationOutcome, passed, failed, not_applicable,
}

pub record CompleteFixVerificationParams : Type 0 where
  pub finding_id : ℕ
  pub run_id : ℕ
  pub actor : AuditActor
  pub source_revalidation_passed : Option Bool
  pub runtime_retest_required : Bool
  pub runtime_retest_passed : Option Bool
  pub target_build_matches_fix_commit : Bool
  pub operational_failure : Bool

pub record CompleteFixVerificationOutcome : Type 0 where
  pub outcome : VerificationOutcome
  pub finding_status : Option FindingStatus

unfoldable pub bool_to_remediation_outcome : Option Bool → RemediationOutcome
bool_to_remediation_outcome none = RemediationOutcome.inconclusive
bool_to_remediation_outcome (some result) = if result then passed else failed

unfoldable pub outcome_to_finding_status : VerificationOutcome → Option FindingStatus
outcome_to_finding_status VerificationOutcome.verified_fixed = some FindingStatus.verified_fixed
outcome_to_finding_status VerificationOutcome.still_exploitable =
    some FindingStatus.still_exploitable
outcome_to_finding_status VerificationOutcome.partially_fixed = some FindingStatus.inconclusive
outcome_to_finding_status VerificationOutcome.inconclusive = some FindingStatus.inconclusive
outcome_to_finding_status VerificationOutcome.verification_failed = none

abbrev pub decide : CompleteFixVerificationParams → VerificationOutcome
decide params = determine_verification_outcome (record {
  source_revalidation_passed = params.source_revalidation_passed;
  runtime_retest_required = params.runtime_retest_required;
  runtime_retest_passed = params.runtime_retest_passed;
  target_build_matches_fix_commit = params.target_build_matches_fix_commit;
  operational_failure = params.operational_failure;
})

-- the transition that the outcome asks for, if any
unfoldable pub settle_finding :
    CompleteFixVerificationParams → Option FindingStatus → Action Db (Unit {0})
settle_finding params none = pure tt
settle_finding params (some status) = transition_finding_status (record {
  finding_id = params.finding_id;
  to = status;
  actor = params.actor;
  event_type = String.◌++◌ "finding." (FindingStatus.name status);
  run_id = some params.run_id;
})

unfoldable pub complete_fix_verification_body :
    CompleteFixVerificationParams → Action Db CompleteFixVerificationOutcome
unfolding bool_to_remediation_outcome
complete_fix_verification_body params = do
  let outcome = decide params
  update_remediation params.finding_id (λ r. record r {
    source_revalidation_status = bool_to_remediation_outcome params.source_revalidation_passed;
    runtime_retest_status =
        if params.runtime_retest_required
        then bool_to_remediation_outcome params.runtime_retest_passed
        else not_applicable;
    final_status = some outcome;
  })
  settle_finding params (outcome_to_finding_status outcome)
  pure (record { outcome = outcome; finding_status = outcome_to_finding_status outcome })

unfoldable pub complete_fix_verification :
    CompleteFixVerificationParams → Action Db CompleteFixVerificationOutcome
unfolding complete_fix_verification_body
complete_fix_verification params = transaction (complete_fix_verification_body params)
