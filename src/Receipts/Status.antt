-- ===== src/Receipts/Status.antt =====
-- src/receipts/receipt-status.ts
use shld.Prelude.{List, [], ◌∷◌, any, all, if◌then◌else◌}
use shld.Domain.FindingStatus
use shld.Domain.FindingStatus.{
  FindingStatus, verified_fixed, not_reproduced, dismissed, accepted_risk,
}
use shld.Domain.RunStatus.{RunStatus}
use shld.Domain.StateMachine.{includes}

pub data ReceiptStatus : Type 0 where
  passed passed_with_findings blocked awaiting_fix inconclusive failed : ReceiptStatus

abbrev pub benign_finding_statuses : List FindingStatus
benign_finding_statuses = verified_fixed ∷ not_reproduced ∷ dismissed ∷ accepted_risk ∷ []

-- the part behind the tests on the run's status
unfoldable pub status_of_findings : List FindingStatus → ReceiptStatus
status_of_findings [] = passed
status_of_findings (s ∷ ss) =
    if any (λ t. FindingStatus.same t FindingStatus.inconclusive) (s ∷ ss)
    then inconclusive
    else if all (λ t. includes FindingStatus.machine t benign_finding_statuses) (s ∷ ss)
    then passed_with_findings
    else passed_with_findings

unfoldable pub compute_receipt_status : RunStatus → List FindingStatus → ReceiptStatus
compute_receipt_status RunStatus.failed statuses = failed
compute_receipt_status RunStatus.cancelled statuses = failed
compute_receipt_status RunStatus.blocked statuses = blocked
compute_receipt_status RunStatus.awaiting_fix statuses = awaiting_fix
compute_receipt_status _ statuses = status_of_findings statuses
