-- ===== src/Orchestration/Finalize.antt =====
-- src/orchestration/handlers/deps.ts, `finalizeRun`.
use shld.Prelude.{
  ℕ, String, Bool, false, ◌||◌, none, some, List, [], ◌∷◌, any, keep, ◌==◌, if◌then◌else◌,
}
use shld.Action.{Action, pure, gets, or_throw, transaction, ◌>>=◌, ◌>>◌, for_each}
use shld.Domain.Errors.{record_missing}
use shld.Domain.FindingStatus
use shld.Domain.FindingStatus.{
  FindingStatus, confirmed, still_exploitable, source_confirmed, fix_pending,
}
use shld.Domain.RunStatus.{RunStatus, completed, blocked, awaiting_fix, is_terminal}
use shld.Domain.Transitions.{find_run, TransitionRunStatusParams, transition_run_status}
use shld.Orchestration.Webhooks.{enqueue_job, enqueue_webhook_delivery}
use shld.Queue.Jobs.{generate_receipt}
use shld.Store.{Db}
use shld.Store.Rows.{
  AuditEvent, Finding, SecurityRun, system_actor, OutboundWebhookEventType, run_completed,
  review_blocked, of_run_job, run_payload,
}

abbrev pub is_about_run : ℕ → AuditEvent → Bool
is_about_run run_id e = elim e.run_id [ none ↦ false | some r ↦ r == run_id ]

abbrev pub is_about_finding : ℕ → AuditEvent → Bool
is_about_finding finding_id e = elim e.finding_id [ none ↦ false | some f ↦ f == finding_id ]

-- `finding.findMany` of the findings that the run's audit events name
unfoldable pub findings_of_run : ℕ → Db → List Finding
findings_of_run run_id db =
    keep (λ f. any (is_about_finding f.id) (keep (is_about_run run_id) db.audit_events)) db.findings

abbrev pub is_blocking : Finding → Bool
is_blocking f =
    FindingStatus.same f.status confirmed || FindingStatus.same f.status still_exploitable

abbrev pub is_awaiting_fix : Finding → Bool
is_awaiting_fix f =
    FindingStatus.same f.status source_confirmed || FindingStatus.same f.status fix_pending

-- `nextStatus`
unfoldable pub disposition : List Finding → RunStatus
disposition findings =
    if any is_blocking findings
    then blocked
    else if any is_awaiting_fix findings
    then awaiting_fix
    else completed

-- `run.${nextStatus}`
abbrev pub run_event : RunStatus → String
run_event blocked = "run.blocked"
run_event awaiting_fix = "run.awaiting_fix"
run_event _ = "run.completed"

abbrev pub event_types_of : RunStatus → List OutboundWebhookEventType
event_types_of blocked = run_completed ∷ review_blocked ∷ []
event_types_of _ = run_completed ∷ []

-- what follows the transition
unfoldable pub announce : SecurityRun → ℕ → RunStatus → Action Db (Unit {0})
announce run run_id next_status = do
  enqueue_job (record {
    job_type = generate_receipt;
    organization_id = run.organization_id;
    idempotency_key = of_run_job run.idempotency_key "receipt";
    payload = run_payload run_id;
  })
  for_each (event_types_of next_status) (λ event_type.
      enqueue_webhook_delivery (record {
        organization_id = run.organization_id;
        event_type = event_type;
        idempotency_key = record { run_id = run_id; status = next_status; event_type = event_type };
      })
      >> pure tt)

-- the transition to the disposition that the findings give
abbrev pub conclusion : ℕ → List Finding → TransitionRunStatusParams
conclusion run_id findings = record {
  run_id = run_id;
  to = disposition findings;
  actor = system_actor;
  event_type = run_event (disposition findings);
  failure_reason = none;
}

-- the part behind `isRunTerminal`
unfoldable pub conclude : SecurityRun → ℕ → Action Db (Unit {0})
conclude run run_id = do
  findings ← gets (findings_of_run run_id)
  transaction (transition_run_status (conclusion run_id findings))
  announce run run_id (disposition findings)

unfoldable pub finalize_run : ℕ → Action Db (Unit {0})
finalize_run run_id = do
  found ← gets (find_run run_id)
  run ← or_throw found record_missing
  if is_terminal run.status then pure tt else conclude run run_id
