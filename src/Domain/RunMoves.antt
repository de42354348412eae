-- ===== src/Domain/RunMoves.antt =====
-- What a transition of a run does to the database: src/domain/run-transitions.ts.
use mathlib.Core.Path.{subst}
use shld.Prelude.{ap, sym, ◌≡◌, refl, ℕ, true, false, none, some, ◌∷◌}
use shld.Action.{ok, err, ◌>>=◌}
use shld.Domain.Errors.{DomainError, invalid_state_transition}
use shld.Domain.RunStatus
use shld.Domain.RunStatus.{
  RunStatus, completed, blocked, awaiting_fix, queued, classifying, source_review_running,
  validation_waiting_for_target, is_terminal,
}
use shld.Domain.Audit.{record_audit_event}
use shld.Domain.StateMachine.{can_transition, assert_transition}
use shld.Domain.Transitions.{
  find_run, TransitionRunStatusParams, transition_run_status, moved_run, update_run,
}
use shld.Store.{Db}
use shld.Store.Table.{find_by, update_by, find_by-updated, find_by-key}
use shld.Store.Rows.{SecurityRun, of_run}

-- the machine's error for a move that is not in its table
abbrev pub refused_run : RunStatus → RunStatus → DomainError
refused_run from to =
    invalid_state_transition "SecurityRun" (RunStatus.name from) (RunStatus.name to)

-- the database after a legal move of `run`
abbrev pub moved_run_db : TransitionRunStatusParams → SecurityRun → Db → Db
moved_run_db params run db = record db {
  runs = update_by (λ r. r.id) run.id (moved_run params db.now run) db.runs;
  audit_events =
      (record {
        organization_id = run.organization_id;
        run_id = some run.id;
        finding_id = none;
        actor = params.actor;
        event_type = params.event_type;
        previous_state = some (of_run run.status);
        new_state = some (of_run params.to);
      })
      ∷ db.audit_events;
}

pub transition_run-legal :
    (params : TransitionRunStatusParams) (db : Db) (run : SecurityRun)
    → find_run params.run_id db ≡ some run
    → can_transition RunStatus.machine run.status params.to ≡ true
    → transition_run_status params db ≡ (ok tt, moved_run_db params run db)
unfolding transition_run_status update_run record_audit_event assert_transition ◌>>=◌
transition_run-legal params db run found legal = rw (found, legal)

pub find_run-moved :
    (params : TransitionRunStatusParams) (db : Db) (run : SecurityRun)
    → find_run params.run_id db ≡ some run
    → find_run params.run_id (moved_run_db params run db) ≡ some (moved_run params db.now run run)
unfolding find_run moved_run
find_run-moved params db run found =
    subst
      (λ k.
        find_by (λ r. r.id) params.run_id
          (update_by (λ r. r.id) k (moved_run params db.now run) db.runs)
        ≡ some (moved_run params db.now run run))
      (sym (find_by-key (λ r. r.id) params.run_id run db.runs found))
      (find_by-updated (λ r. r.id) params.run_id (moved_run params db.now run) run db.runs
        (λ r. refl) found)

pub find_run-runs : (id : ℕ) (a b : Db) → a.runs ≡ b.runs → find_run id a ≡ find_run id b
unfolding find_run
find_run-runs id a b same = ap (find_by (λ r. r.id) id) same

pub transition_run-illegal :
    (params : TransitionRunStatusParams) (db : Db) (run : SecurityRun)
    → find_run params.run_id db ≡ some run
    → can_transition RunStatus.machine run.status params.to ≡ false
    → transition_run_status params db ≡ (err (refused_run run.status params.to), db)
unfolding transition_run_status assert_transition ◌>>=◌
transition_run-illegal params db run found illegal = rw (found, illegal)
