-- ===== src/Orchestration/FinalizeLaws.antt =====
-- What `finalizeRun` of src/orchestration/handlers/deps.ts does on each of its branches.
use shld.Prelude.{◌≡◌, ◌⊎◌, ℕ, Bool, true, false, some, List, ◌∷◌, ◌++◌, arith}
use shld.Action.{err, ◌>>=◌}
use shld.Domain.RunStatus
use shld.Domain.RunStatus.{
  RunStatus, completed, blocked, awaiting_fix, queued, classifying, source_review_running,
  validation_waiting_for_target, is_terminal,
}
use shld.Domain.RunMoves.{refused_run, transition_run-illegal}
use shld.Domain.StateMachine.{can_transition}
use shld.Domain.Transitions.{find_run}
use shld.Orchestration.Finalize.{findings_of_run, disposition, conclusion, conclude, finalize_run}
use shld.Store.{Db}
use shld.Queue.Jobs.{generate_receipt}
use shld.Store.Rows.{Finding, SecurityRun, JobRequest, of_run_job, run_payload}

-- a status in which the run is neither over nor ready to be concluded
abbrev pub is_premature : RunStatus → Bool
is_premature queued = true
is_premature classifying = true
is_premature source_review_running = true
is_premature validation_waiting_for_target = true
is_premature awaiting_fix = true
is_premature _ = false

disposition_cases :
    (findings : List Finding)
    → (disposition findings ≡ blocked)
      ⊎ (disposition findings ≡ awaiting_fix)
      ⊎ (disposition findings ≡ completed)
unfolding disposition
disposition_cases findings = ground arith

premature_is_open : (s : RunStatus) → is_premature s ≡ true → is_terminal s ≡ false
unfolding is_terminal
premature_is_open s h = ground arith

premature_is_stuck :
    (s t : RunStatus)
    → is_premature s ≡ true
    → (t ≡ blocked) ⊎ (t ≡ awaiting_fix) ⊎ (t ≡ completed)
    → can_transition RunStatus.machine s t ≡ false
unfolding can_transition
premature_is_stuck s t h d = ground arith

conclude-illegal :
    (db : Db) (run : SecurityRun) (run_id : ℕ)
    → find_run run_id db ≡ some run
    → can_transition RunStatus.machine run.status (disposition (findings_of_run run_id db)) ≡ false
    → conclude run run_id db
      ≡ (err (refused_run run.status (disposition (findings_of_run run_id db))), db)
unfolding conclude ◌>>=◌
conclude-illegal db run run_id found illegal =
    rw (transition_run-illegal (conclusion run_id (findings_of_run run_id db)) db run found illegal)

-- A run that is queued, being classified or reviewed, waiting for a target or for a fix cannot be
-- concluded: whatever its findings are, `finalizeRun` throws the state machine's error and changes
-- nothing.
pub finalize_run-refused :
    (db : Db) (run : SecurityRun) (run_id : ℕ)
    → find_run run_id db ≡ some run
    → is_premature run.status ≡ true
    → finalize_run run_id db
      ≡ (err (refused_run run.status (disposition (findings_of_run run_id db))), db)
unfolding finalize_run ◌>>=◌
finalize_run-refused db run run_id found premature =
    rw (found, premature_is_open run.status premature)
      (conclude-illegal db run run_id found
        (premature_is_stuck run.status _ premature (disposition_cases (findings_of_run run_id db))))

-- a status from which every disposition is a legal move
abbrev pub is_ready : RunStatus → Bool
is_ready RunStatus.source_review_completed = true
is_ready RunStatus.validation_running = true
is_ready RunStatus.fix_verification_running = true
is_ready _ = false

-- the job that writes the receipt of a run
abbrev pub receipt_job : SecurityRun → ℕ → JobRequest
receipt_job run run_id = record {
  job_type = generate_receipt;
  organization_id = run.organization_id;
  idempotency_key = of_run_job run.idempotency_key "receipt";
  payload = run_payload run_id;
}

-- the run stands at the disposition, and its receipt and the webhooks' deliveries were handed over
pub record IsConcluded (run_id : ℕ) (run : SecurityRun) (before after : Db) : Type 0 where
  pub moved : SecurityRun
  pub found : find_run run_id after ≡ some moved
  pub status : moved.status ≡ disposition (findings_of_run run_id before)
  pub deliveries : List JobRequest
  pub jobs : after.outbox ≡ deliveries ++ receipt_job run run_id ∷ before.outbox
