-- ===== src/Remediation/Submit.antt =====
-- src/remediation/submit-fix.ts
use shld.Prelude.{
  ℕ, String, Bool, Option, none, some, List, [], ◌∷◌, ◌&&◌, any, ◌==◌, if◌then◌else◌,
}
use shld.Action.{Action, pure, gets, modify, or_throw, when, transaction, ◌>>=◌, ◌>>◌}
use shld.Domain.Errors.{not_found}
use shld.Domain.StateMachine.{includes}
use shld.Domain.FindingStatus
use shld.Domain.FindingStatus.{FindingStatus, fix_pending, fix_submitted}
use shld.Domain.Transitions.{find_finding, TransitionFindingStatusParams, transition_finding_status}
use shld.Store.{Db}
use shld.Store.Writes.{fresh_id, find_remediation, put_remediation}
use shld.Store.Rows.{
  Finding, AuditActor, Verdict, Remediation, RemediationOutcome, pending, not_applicable,
}

pub record SubmitFixParams : Type 0 where
  pub finding_id : ℕ
  pub fix_commit_sha : String
  pub actor : AuditActor

pub record SubmitFixOutcome : Type 0 where
  pub remediation_id : ℕ
  pub finding_status : FindingStatus
  pub requires_runtime_retest : Bool

abbrev pub hop_to_fix_pending_from : List FindingStatus
hop_to_fix_pending_from =
    FindingStatus.source_confirmed ∷ FindingStatus.confirmed ∷ FindingStatus.not_reproduced
    ∷ FindingStatus.inconclusive ∷ FindingStatus.still_exploitable ∷ []

abbrev pub is_confirmed : Verdict → Bool
is_confirmed Verdict.confirmed = Bool.true
is_confirmed _ = Bool.false

-- `validation.findFirst({ where: { findingId, status: "confirmed" } })`, as a Boolean
unfoldable pub was_ever_runtime_confirmed : ℕ → Db → Bool
was_ever_runtime_confirmed finding_id db =
    any (λ v. v.finding_id == finding_id && is_confirmed v.status) db.validations

abbrev pub retest_status : Bool → RemediationOutcome
retest_status required = if required then pending else not_applicable

-- the row of `create`, and the change of `update`
abbrev pub new_remediation : ℕ → ℕ → String → Bool → Remediation
new_remediation id finding_id sha required = record {
  id = id;
  finding_id = finding_id;
  fix_commit_sha = sha;
  source_revalidation_status = pending;
  runtime_retest_status = retest_status required;
  regression_test_status = not_applicable;
  final_status = none;
}

abbrev pub resubmitted : String → Bool → Remediation → Remediation
resubmitted sha required r = record r {
  fix_commit_sha = sha;
  source_revalidation_status = pending;
  runtime_retest_status = retest_status required;
  final_status = none;
}

-- `remediation.upsert` on the row that it found, or on none
unfoldable pub upsert_row : ℕ → String → Bool → Option Remediation → Action Db ℕ
upsert_row finding_id sha required none = do
  id ← fresh_id
  modify (λ db. record db {
    remediations = new_remediation id finding_id sha required ∷ db.remediations;
  })
  pure id
upsert_row finding_id sha required (some row) = do
  modify (put_remediation finding_id (resubmitted sha required))
  pure row.id

unfoldable pub upsert_remediation : ℕ → String → Bool → Action Db ℕ
upsert_remediation finding_id sha required = do
  existing ← gets (find_remediation finding_id)
  upsert_row finding_id sha required existing

abbrev pub fix_move : SubmitFixParams → ℕ → FindingStatus → String → TransitionFindingStatusParams
fix_move params id to event = record {
  finding_id = id;
  to = to;
  actor = params.actor;
  event_type = event;
  run_id = none;
}

-- the transitions of the body
unfoldable pub submit_moves : SubmitFixParams → Finding → Action Db (Unit {0})
submit_moves params finding = do
  when (includes FindingStatus.machine finding.status hop_to_fix_pending_from)
      (transition_finding_status (fix_move params finding.id fix_pending "finding.fix_pending"))
  transition_finding_status (fix_move params finding.id fix_submitted "finding.fix_submitted")

-- the body of the transaction
unfoldable pub submit_fix_body : SubmitFixParams → Action Db SubmitFixOutcome
submit_fix_body params = do
  found ← gets (find_finding params.finding_id)
  finding ← or_throw found not_found
  submit_moves params finding
  required ← gets (was_ever_runtime_confirmed finding.id)
  id ← upsert_remediation finding.id params.fix_commit_sha required
  pure (record {
    remediation_id = id;
    finding_status = fix_submitted;
    requires_runtime_retest = required;
  })

unfoldable pub submit_fix : SubmitFixParams → Action Db SubmitFixOutcome
unfolding submit_fix_body
submit_fix params = transaction (submit_fix_body params)
