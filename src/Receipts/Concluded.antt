-- ===== src/Receipts/Concluded.antt =====
-- The receipt of a run that src/orchestration/handlers/deps.ts has concluded.
use shld.Prelude.{◌≡◌, ◌↔◌, Bool, true, false, List, [], any, map, if◌then◌else◌}
use shld.Domain.FindingStatus
use shld.Orchestration.Finalize.{is_blocking, is_awaiting_fix, disposition}
use shld.Receipts.Status.{
  ReceiptStatus, passed, passed_with_findings, blocked, awaiting_fix, inconclusive,
  compute_receipt_status,
}
use shld.Store.Rows.{Finding}

-- the receipt of a run with these findings, once it is concluded
abbrev pub receipt_of : List Finding → ReceiptStatus
receipt_of findings = compute_receipt_status (disposition findings) (map (λ f. f.status) findings)

abbrev pub is_inconclusive : Finding → Bool
is_inconclusive f = FindingStatus.same f.status FindingStatus.inconclusive

-- the receipt of at least one finding, from three tests on the findings
abbrev verdict : (blocking waiting doubtful : Bool) → ReceiptStatus
verdict blocking waiting doubtful =
    if blocking
    then blocked
    else if waiting
    then awaiting_fix
    else if doubtful
    then inconclusive
    else passed_with_findings

-- what each answer means for the findings
pub record IsFair (findings : List Finding) : Type 0 where
  pub blocks : (receipt_of findings ≡ blocked) ↔ (any is_blocking findings ≡ true)
  pub awaits :
      (receipt_of findings ≡ awaiting_fix)
      ↔ ((any is_blocking findings ≡ false) × (any is_awaiting_fix findings ≡ true))
  pub doubts : (receipt_of findings ≡ inconclusive) ↔ (
      (any is_blocking findings ≡ false)
      × (any is_awaiting_fix findings ≡ false)
      × (any is_inconclusive findings ≡ true))
  pub passes : (receipt_of findings ≡ passed) ↔ (findings ≡ [])
