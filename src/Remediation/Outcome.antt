-- ===== src/Remediation/Outcome.antt =====
-- src/remediation/determine-verification-outcome.ts
use shld.Prelude.{
  ◌≡◌, ◌↔◌, ◌⊎◌, Bool, true, false, not, Option, none, some, ◌&&◌, arith, if◌then◌else◌,
}
use shld.Store.Rows.{
  VerificationOutcome, verified_fixed, still_exploitable, partially_fixed, inconclusive,
  verification_failed,
}

-- `operational_failure` is false where the source leaves it out
pub record DetermineVerificationOutcomeParams : Type 0 where
  pub source_revalidation_passed : Option Bool
  pub runtime_retest_required : Bool
  pub runtime_retest_passed : Option Bool
  pub target_build_matches_fix_commit : Bool
  pub operational_failure : Bool

-- the last three returns, once both verdicts are there
combine : Bool → Bool → VerificationOutcome
combine source runtime =
    if source && runtime
    then verified_fixed
    else if not source && not runtime
    then still_exploitable
    else partially_fixed

-- the part after the checks on `operationalFailure` and on a missing source verdict
with_source : Bool → DetermineVerificationOutcomeParams → VerificationOutcome
unfolding combine
with_source source params =
    if not params.runtime_retest_required
    then (if source then verified_fixed else still_exploitable)
    else if not params.target_build_matches_fix_commit
    then inconclusive
    else elim params.runtime_retest_passed [
      | none ↦ inconclusive
      | some runtime ↦ combine source runtime
    ]

unfoldable pub determine_verification_outcome :
    DetermineVerificationOutcomeParams → VerificationOutcome
unfolding with_source
determine_verification_outcome params =
    if params.operational_failure
    then verification_failed
    else elim params.source_revalidation_passed [
      | none ↦ verification_failed
      | some source ↦ with_source source params
    ]

verified_fixed_iff :
    (p : DetermineVerificationOutcomeParams)
    → (determine_verification_outcome p ≡ verified_fixed) ↔ (
        (p.operational_failure ≡ false)
        × (p.source_revalidation_passed ≡ some true)
        × ((p.runtime_retest_required ≡ false)
            ⊎ ((p.target_build_matches_fix_commit ≡ true) × (p.runtime_retest_passed ≡ some true))))
unfolding determine_verification_outcome
verified_fixed_iff p = ground arith

still_exploitable_iff :
    (p : DetermineVerificationOutcomeParams)
    → (determine_verification_outcome p ≡ still_exploitable) ↔ (
        (p.operational_failure ≡ false)
        × (p.source_revalidation_passed ≡ some false)
        × ((p.runtime_retest_required ≡ false)
            ⊎ ((p.target_build_matches_fix_commit ≡ true)
                × (p.runtime_retest_passed ≡ some false))))
unfolding determine_verification_outcome
still_exploitable_iff p = ground arith

-- what it means that all the tests that were required passed, or that all of them failed
abbrev pub unanimous : Bool → VerificationOutcome
unanimous true = verified_fixed
unanimous false = still_exploitable

-- A fix counts as verified exactly when nothing failed operationally, the source revalidation
-- passed and, where a runtime retest is required, the target ran the fix commit and the retest passed;
-- it counts as still exploitable exactly when the same holds with both failed in place of passed.
pub unanimous_iff :
    (p : DetermineVerificationOutcomeParams) (passed : Bool)
    → (determine_verification_outcome p ≡ unanimous passed) ↔ (
        (p.operational_failure ≡ false)
        × (p.source_revalidation_passed ≡ some passed)
        × ((p.runtime_retest_required ≡ false)
            ⊎ ((p.target_build_matches_fix_commit ≡ true)
                × (p.runtime_retest_passed ≡ some passed))))
unanimous_iff p true = verified_fixed_iff p
unanimous_iff p false = still_exploitable_iff p
