-- ===== src/Domain/Transitions.antt =====
-- src/domain/finding-transitions.ts and src/domain/run-transitions.ts: the only code that changes
-- the status of a finding or of a run.

use shld.Prelude.{ℕ, String, Option, none, some, List, [], ◌∷◌, or_else, if◌then◌else◌}
use shld.Action.{Action, lift, or_throw, modify, ◌>>=◌, ◌>>◌, gets}
use shld.Domain.Errors.{record_missing}
use shld.Domain.StateMachine.{assert_transition, includes}
use shld.Domain.FindingStatus
use shld.Domain.FindingStatus.{FindingStatus}
use shld.Domain.RunStatus
use shld.Domain.RunStatus.{RunStatus}
use shld.Domain.Audit.{record_audit_event}
use shld.Store.{Db}
use shld.Store.Table.{find_by, update_by}
use shld.Store.Rows.{Finding, SecurityRun, AuditActor, of_finding, of_run}

-- `tx.finding.findUnique({ where: { id } })`
unfoldable pub find_finding : ℕ → Db → Option Finding
find_finding id db = find_by (λ f. f.id) id db.findings

-- `tx.finding.update({ where: { id }, data })`
unfoldable pub update_finding : ℕ → (Finding → Finding) → Action Db (Unit {0})
update_finding id change =
    modify λ db. record db { findings = update_by (λ f. f.id) id change db.findings }

unfoldable pub find_run : ℕ → Db → Option SecurityRun
find_run id db = find_by (λ r. r.id) id db.runs

unfoldable pub update_run : ℕ → (SecurityRun → SecurityRun) → Action Db (Unit {0})
update_run id change = modify λ db. record db { runs = update_by (λ r. r.id) id change db.runs }

-- `TransitionFindingStatusParams` without the metadata
pub record TransitionFindingStatusParams : Type 0 where
  pub finding_id : ℕ
  pub to : FindingStatus
  pub actor : AuditActor
  pub event_type : String
  pub run_id : Option ℕ

unfoldable pub transition_finding_status : TransitionFindingStatusParams → Action Db (Unit {0})
unfolding update_finding record_audit_event
transition_finding_status params = do
  found ← gets (find_finding params.finding_id)
  finding ← or_throw found record_missing
  lift (assert_transition FindingStatus.machine finding.status params.to)
  update_finding finding.id (λ f. record f { status = params.to })
  record_audit_event (record {
    organization_id = finding.organization_id;
    run_id = params.run_id;
    finding_id = some finding.id;
    actor = params.actor;
    event_type = params.event_type;
    previous_state = some (of_finding finding.status);
    new_state = some (of_finding params.to);
  })

-- `TERMINAL_STATUSES`
abbrev pub terminal_statuses : List RunStatus
terminal_statuses =
    RunStatus.completed ∷ RunStatus.blocked ∷ RunStatus.failed ∷ RunStatus.cancelled ∷ []

-- `TransitionRunStatusParams` without the metadata
pub record TransitionRunStatusParams : Type 0 where
  pub run_id : ℕ
  pub to : RunStatus
  pub actor : AuditActor
  pub event_type : String
  pub failure_reason : Option String

-- what `transitionRunStatus` writes to a row, having read `run`
unfoldable pub moved_run : TransitionRunStatusParams → ℕ → SecurityRun → SecurityRun → SecurityRun
unfolding includes
moved_run params now run row = record row {
  status = params.to;
  started_at =
      or_else
        (or_else run.started_at
          (if RunStatus.same params.to RunStatus.classifying then some now else none))
        run.started_at;
  completed_at =
      if includes RunStatus.machine params.to terminal_statuses then some now else run.completed_at;
  failure_reason = or_else params.failure_reason run.failure_reason;
}

unfoldable pub transition_run_status : TransitionRunStatusParams → Action Db (Unit {0})
unfolding update_run record_audit_event
transition_run_status params = do
  found ← gets (find_run params.run_id)
  run ← or_throw found record_missing
  lift (assert_transition RunStatus.machine run.status params.to)
  now ← gets (λ db. db.now)
  update_run run.id (moved_run params now run)
  record_audit_event (record {
    organization_id = run.organization_id;
    run_id = some run.id;
    finding_id = none;
    actor = params.actor;
    event_type = params.event_type;
    previous_state = some (of_run run.status);
    new_state = some (of_run params.to);
  })
