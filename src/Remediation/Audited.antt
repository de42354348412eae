-- ===== src/Remediation/Audited.antt =====
-- The three services of src/remediation keep the promise of the audit log.
use shld.Prelude.{ℕ, String, Bool, Option, none, some}
use shld.Action.Keeps.{Keeps}
use shld.Domain.FindingStatus.{FindingStatus}
use shld.Domain.Trail.{IsAudited}
use shld.Domain.Trail.Findings.{transition_finding_status-IsAudited}
use shld.Domain.Trail.Rules.{audit_rules, elsewhere-IsAudited}
use shld.Store.Rows.{Finding, Remediation}
use shld.Remediation.Submit.{
  SubmitFixParams, upsert_row, upsert_remediation, submit_moves, submit_fix_body, submit_fix,
}
use shld.Remediation.Start.{
  StartFixVerificationParams, start_fix_verification_body, start_fix_verification,
}
use shld.Remediation.Complete.{
  CompleteFixVerificationParams, settle_finding, complete_fix_verification_body,
  complete_fix_verification,
}

ruleset rules = (audit_rules, transition_finding_status-IsAudited)

upsert_row-IsAudited :
    (id : ℕ) (sha : String) (required : Bool) (found : Option Remediation)
    → Keeps IsAudited (upsert_row id sha required found)
unfolding upsert_row
upsert_row-IsAudited id sha required none = search (rules, elsewhere-IsAudited) depth 8
upsert_row-IsAudited id sha required (some r) = search (rules, elsewhere-IsAudited) depth 8

upsert_remediation-IsAudited :
    (id : ℕ) (sha : String) (required : Bool) → Keeps IsAudited (upsert_remediation id sha required)
unfolding upsert_remediation
upsert_remediation-IsAudited id sha required = search (rules, upsert_row-IsAudited)

submit_moves-IsAudited :
    (params : SubmitFixParams) (f : Finding) → Keeps IsAudited (submit_moves params f)
unfolding submit_moves
submit_moves-IsAudited params f = search rules

submit_fix_body-IsAudited : (params : SubmitFixParams) → Keeps IsAudited (submit_fix_body params)
unfolding submit_fix_body
submit_fix_body-IsAudited params =
    search (rules, submit_moves-IsAudited, upsert_remediation-IsAudited) depth 9

pub submit_fix-IsAudited : (params : SubmitFixParams) → Keeps IsAudited (submit_fix params)
unfolding submit_fix
submit_fix-IsAudited params = search (rules, submit_fix_body-IsAudited)

start_fix_verification_body-IsAudited :
    (params : StartFixVerificationParams) → Keeps IsAudited (start_fix_verification_body params)
unfolding start_fix_verification_body
start_fix_verification_body-IsAudited params = search rules depth 9

pub start_fix_verification-IsAudited :
    (params : StartFixVerificationParams) → Keeps IsAudited (start_fix_verification params)
unfolding start_fix_verification
start_fix_verification-IsAudited params = search (rules, start_fix_verification_body-IsAudited)

settle_finding-IsAudited :
    (params : CompleteFixVerificationParams) (status : Option FindingStatus)
    → Keeps IsAudited (settle_finding params status)
unfolding settle_finding
settle_finding-IsAudited params none = search rules
settle_finding-IsAudited params (some status) = search rules

complete_fix_verification_body-IsAudited :
    (params : CompleteFixVerificationParams)
    → Keeps IsAudited (complete_fix_verification_body params)
unfolding complete_fix_verification_body
complete_fix_verification_body-IsAudited params = search (rules, settle_finding-IsAudited) depth 9

pub complete_fix_verification-IsAudited :
    (params : CompleteFixVerificationParams) → Keeps IsAudited (complete_fix_verification params)
unfolding complete_fix_verification
complete_fix_verification-IsAudited params =
    search (rules, complete_fix_verification_body-IsAudited)
