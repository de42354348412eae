-- ===== src/Tests/Finalize.antt =====
-- The end of a run: too early for a run that is queued, and due after its source review.
use shld.Prelude.{◌≡◌, refl, true, some, List, [], ◌∷◌}
use shld.Action.{Result, ok, err, ◌>>=◌, collect, for_each}
use shld.Audited.Service.{Service, new_run, move_run, deepsec, serve}
use shld.Domain.Creation.{create_finding, find_by_fingerprint}
use shld.Domain.RunStatus.{
  machine, queued, classifying, source_review_running, source_review_completed, awaiting_fix,
}
use shld.Domain.RunMoves.{refused_run}
use shld.Domain.StateMachine.{assert_transition, can_transition}
use shld.Domain.Transitions.{
  find_finding, update_finding, transition_finding_status, find_run, update_run, moved_run,
  transition_run_status, TransitionRunStatusParams,
}
use shld.Engines.DeepSec.{persist_deepsec_run, upsert_finding, upsert_found}
use shld.Orchestration.Finalize.{finalize_run, findings_of_run, disposition}
use shld.Orchestration.FinalizeLaws.{finalize_run-refused}
use shld.Orchestration.SourceReview.{run_move}
use shld.Domain.Errors.{plain_error}
use shld.Orchestration.Prepare.{SourceSnapshot, prepare_repository_handler}
use shld.Orchestration.PrepareLaws.{prepare_repository_handler-retry}
use shld.Store.{Db}
use shld.Store.Rows.{SecurityRun}
use shld.Store.Table.{find_by, update_by}
use shld.Store.Writes.{create_run, create_artifact, create_engine_execution, run_of}
use shld.Tests.Scenario.{stored, review, source_review, run_services}

-- what a run of the services opens
service_run : Unit {0}
unfolding serve ◌>>=◌ collect for_each create_run persist_deepsec_run create_artifact
    create_engine_execution upsert_finding upsert_found find_by_fingerprint create_finding
    find_finding update_finding transition_finding_status assert_transition can_transition find_run
    update_run moved_run transition_run_status find_by update_by findings_of_run disposition
service_run = tt

abbrev queued_run : List Service
queued_run = new_run review ∷ deepsec source_review ∷ []

queued_found : find_run 0 (run_services queued_run) ≡ some (run_of review 0)
unfolding service_run
queued_found = refl

finalize_run-refused_example : finalize_run 0 (run_services queued_run) ≡ (
  err (refused_run queued (disposition (findings_of_run 0 (run_services queued_run)))),
  run_services queued_run,
)
finalize_run-refused_example =
    finalize_run-refused (run_services queued_run) (run_of review 0) 0 queued_found refl

abbrev reviewed_run : List Service
reviewed_run =
    new_run review
    ∷ move_run (run_move 0 classifying "run.classifying")
    ∷ move_run (run_move 0 source_review_running "run.source_review_running")
    ∷ deepsec source_review
    ∷ move_run (run_move 0 source_review_completed "run.source_review_completed")
    ∷ []

abbrev run_reviewed : SecurityRun
run_reviewed = record (run_of review 0) { status = source_review_completed; started_at = some 0 }

-- the finding of the review awaits a fix
review_awaits_fix : disposition (findings_of_run 0 (run_services reviewed_run)) ≡ awaiting_fix
unfolding service_run
review_awaits_fix = refl

abbrev classify : TransitionRunStatusParams
classify = run_move 0 classifying "run.classifying"

classify_is_legal : can_transition machine (run_of review 0).status classify.to ≡ true
unfolding service_run
classify_is_legal = refl

abbrev clone_fails : SecurityRun → Result SourceSnapshot
clone_fails run = err plain_error

abbrev clone_works : SecurityRun → Result SourceSnapshot
clone_works run = ok (record { text = "{}"; changed_files = "db.ts" ∷ [] })

prepare_repository_handler-retry_example :
    (after : Db) × (prepare_repository_handler stored clone_fails 0 (run_services queued_run)
      ≡ (err plain_error, after))
    × (prepare_repository_handler stored clone_works 0 after
        ≡ (err (refused_run classifying classifying), after))
prepare_repository_handler-retry_example =
    prepare_repository_handler-retry stored clone_fails clone_works (run_services queued_run)
      (run_of review 0) plain_error queued_found classify_is_legal refl
