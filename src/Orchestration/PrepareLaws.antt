-- ===== src/Orchestration/PrepareLaws.antt =====
-- What a retry of the job that prepares a repository does: prepare-and-classify.ts.
use shld.Prelude.{◌≡◌, refl, String, Bool, true, some}
use shld.Action.{Result, err, ◌>>=◌}
use shld.Domain.Errors.{DomainError}
use shld.Domain.RunMoves.{
  refused_run, moved_run_db, transition_run-legal, transition_run-illegal, find_run-moved,
}
use shld.Domain.RunStatus
use shld.Domain.RunStatus.{classifying}
use shld.Domain.StateMachine.{can_transition}
use shld.Domain.Transitions.{find_run, moved_run}
use shld.Engines.DeepSec.{StoredArtifact}
use shld.Orchestration.Prepare.{SourceSnapshot, prepare_repository_handler}
use shld.Orchestration.SourceReview.{run_move}
use shld.Store.{Db}
use shld.Store.Rows.{SecurityRun}

module _ (store : String → String → StoredArtifact) where
  no_self_move : can_transition RunStatus.machine classifying classifying ≡ Bool.false
  unfolding can_transition
  no_self_move = refl

  -- If the snapshot of a run fails, every retry of the job fails: the first attempt has moved the run
  -- to `classifying`, and each further one is refused that move, whatever becomes of the snapshot,
  -- and changes nothing.
  pub prepare_repository_handler-retry :
      (first later : SecurityRun → Result SourceSnapshot) (db : Db) (run : SecurityRun)
      (e : DomainError)
      → find_run run.id db ≡ some run
      → can_transition RunStatus.machine run.status classifying ≡ true
      → first run ≡ err e
      → (after : Db) × (prepare_repository_handler store first run.id db ≡ (err e, after))
        × (prepare_repository_handler store later run.id after
            ≡ (err (refused_run classifying classifying), after))
  unfolding prepare_repository_handler moved_run ◌>>=◌
  prepare_repository_handler-retry first later db run e found legal failed =
      let params = run_move run.id classifying "run.classifying" in
      let moved = find_run-moved params db run found in
      let again = transition_run-illegal params (moved_run_db params run db) _ moved no_self_move in
      (
        moved_run_db params run db,
        rw (found, transition_run-legal params db run found legal, failed),
        rw (moved, again),
      )
