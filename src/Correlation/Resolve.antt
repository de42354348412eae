-- ===== src/Correlation/Resolve.antt =====
-- src/correlation/resolve-finding-status.ts
use shld.Prelude.{◌≡◌, ◌↔◌, Bool, true, false, not, Option, none, some, arith, if◌then◌else◌}
use shld.Domain.FindingStatus.{FindingStatus}
use shld.Store.Rows.{Verdict, confirmed, not_reproduced, inconclusive, failed}

pub record ResolveFindingStatusParams : Type 0 where
  pub verdict : Verdict
  pub build_matches : Bool
  pub test_complete : Bool

-- the `switch`, and the status that a verdict has by itself
unfoldable pub status_of_verdict : Verdict → Option FindingStatus
status_of_verdict confirmed = some FindingStatus.confirmed
status_of_verdict not_reproduced = some FindingStatus.not_reproduced
status_of_verdict inconclusive = some FindingStatus.inconclusive
status_of_verdict failed = none

abbrev pub is_failed : Verdict → Bool
is_failed failed = true
is_failed _ = false

unfoldable pub resolve_finding_status_from_validation :
    ResolveFindingStatusParams → Option FindingStatus
unfolding status_of_verdict
resolve_finding_status_from_validation params =
    if is_failed params.verdict
    then none
    else if not params.build_matches
    then some FindingStatus.inconclusive
    else if not params.test_complete
    then some FindingStatus.inconclusive
    else status_of_verdict params.verdict

-- A validation confirms a finding exactly when the verdict says so, the target ran the commit
-- under review and the test was complete.
pub resolves_confirmed_iff :
    (p : ResolveFindingStatusParams)
    → (resolve_finding_status_from_validation p ≡ some FindingStatus.confirmed)
      ↔ ((p.verdict ≡ confirmed) × (p.build_matches ≡ true) × (p.test_complete ≡ true))
unfolding resolve_finding_status_from_validation
resolves_confirmed_iff p = ground arith

-- It leaves the finding alone exactly when the execution failed.
pub resolves_none_iff :
    (p : ResolveFindingStatusParams)
    → (resolve_finding_status_from_validation p ≡ none) ↔ (p.verdict ≡ failed)
unfolding resolve_finding_status_from_validation
resolves_none_iff p = ground arith
