-- ===== src/Audited/Reach.antt =====
-- The audit log of every database that the services can reach.
use shld.Prelude.{ℕ, String, ◌≡◌, refl, some, Option, List, [], ◌∷◌, arith}
use shld.Audited.Service.{
  Service, new_run, move_run, move_finding, deepsec, strix, correlate, route, submit, start,
  complete, source_review, revalidate, validate, retest, finalize, ask_review, ask_validation,
  ask_fix, ask_verification, ask_cancel, prepare, classify, deliver, replay, new_agent, route_run,
  pull_request, receipt_job, ask_receipt, key_login, open_session, close_session, new_organization,
  new_user, new_credential, new_repository, new_policy_config, new_target, new_endpoint, snapshot,
  wait, empty_db, call, serve,
}
use shld.Accounts.Audited.{
  authenticate_agent_by_api_key-IsAudited, create_session-IsAudited, revoke_session-IsAudited,
}
use shld.Github.Audited.{process_pull_request_event-IsAudited}
use shld.Receipts.Audited.{generate_receipt_handler-IsAudited, get_receipt-IsAudited}
use shld.Audited.Engines.{persist_deepsec_run-IsAudited, persist_strix_run-IsAudited}
use shld.Audited.Policy.{apply_routing_policy-IsAudited}
use shld.Audited.Correlation.{correlate_strix_validation-IsAudited}
use shld.Domain.FindingStatus.{verified_fixed, retesting, fix_submitted, fix_pending}
use shld.Domain.Transitions.{find_finding}
use shld.Domain.Trail.{events_about, FindingTrail, IsAudited}
use shld.Domain.Trail.Verified.{new_states, verified_trail}
use shld.Domain.Trail.Findings.{transition_finding_status-IsAudited}
use shld.Domain.Trail.Rules.{
  IsAudited-same, create_run-IsAudited, create_artifact-IsAudited, transition_run_status-IsAudited,
}
use shld.Engines.DeepSec.{StoredArtifact}
use shld.Remediation.Audited.{
  submit_fix-IsAudited, start_fix_verification-IsAudited, complete_fix_verification-IsAudited,
}
use shld.Services.Audited.{
  create_security_review-IsAudited, validate_finding-IsAudited, submit_fix_for_finding-IsAudited,
  verify_fix_for_finding-IsAudited, cancel_run-IsAudited,
}
use shld.Orchestration.RouteAudited.{
  deliver_webhook_handler-IsAudited, replay_webhook_delivery-IsAudited,
  prepare_repository_handler-IsAudited, classify_change_handler-IsAudited,
  apply_routing_policy_handler-IsAudited,
}
use shld.Orchestration.Audited.{
  finalize_run-IsAudited, run_deepsec_handler-IsAudited, run_deepsec_revalidation_handler-IsAudited,
  run_strix_validation_handler-IsAudited, run_strix_retest_handler-IsAudited,
}
use shld.Store.{Db}
use shld.Store.Table.{find_by}
use shld.Store.Rows.{Finding, AuditState, of_finding}

empty_db-IsAudited : IsAudited empty_db
unfolding find_finding find_by events_about
empty_db-IsAudited = record { trails = λ id f h. cc; silent = λ id h. refl; fresh = λ id h. refl }

elsewhere :
    (db after : Db)
    → after.findings ≡ db.findings
    → after.audit_events ≡ db.audit_events
    → after.next_id ≡ db.next_id
    → IsAudited db
    → IsAudited after
elsewhere db after same log next inv =
    IsAudited-same db after same (λ id. rw log) (omega (arith, next)) inv

module _ (store : String → String → StoredArtifact) (sha256 : List ℕ → String)
    (key_text : ℕ → String) where
  call-IsAudited :
      (s : Service) (db : Db) → IsAudited db → IsAudited (call store sha256 key_text s db)
  unfolding call
  call-IsAudited (new_run new) db inv = (create_run-IsAudited new).at db inv
  call-IsAudited (move_run params) db inv = (transition_run_status-IsAudited params).at db inv
  call-IsAudited (move_finding params) db inv =
      (transition_finding_status-IsAudited params).at db inv
  call-IsAudited (deepsec params) db inv = (persist_deepsec_run-IsAudited store params).at db inv
  call-IsAudited (strix params) db inv = (persist_strix_run-IsAudited store params).at db inv
  call-IsAudited (correlate params) db inv =
      (correlate_strix_validation-IsAudited store sha256 key_text params).at db inv
  call-IsAudited (route params) db inv = (apply_routing_policy-IsAudited params).at db inv
  call-IsAudited (submit params) db inv = (submit_fix-IsAudited params).at db inv
  call-IsAudited (start params) db inv = (start_fix_verification-IsAudited params).at db inv
  call-IsAudited (complete params) db inv = (complete_fix_verification-IsAudited params).at db inv
  call-IsAudited (source_review engine run_id) db inv =
      (run_deepsec_handler-IsAudited store engine run_id).at db inv
  call-IsAudited (revalidate engine run_id id) db inv =
      (run_deepsec_revalidation_handler-IsAudited store engine run_id id).at db inv
  call-IsAudited (validate engine run_id id) db inv =
      (run_strix_validation_handler-IsAudited store sha256 key_text engine run_id id).at db inv
  call-IsAudited (retest engine run_id id) db inv =
      (run_strix_retest_handler-IsAudited store sha256 key_text engine run_id id).at db inv
  call-IsAudited (finalize run_id) db inv = (finalize_run-IsAudited run_id).at db inv
  call-IsAudited (ask_review params) db inv =
      (create_security_review-IsAudited sha256 key_text params).at db inv
  call-IsAudited (ask_validation a id target) db inv =
      (validate_finding-IsAudited sha256 key_text a id target).at db inv
  call-IsAudited (ask_fix a id sha) db inv = (submit_fix_for_finding-IsAudited a id sha).at db inv
  call-IsAudited (ask_verification a id target) db inv =
      (verify_fix_for_finding-IsAudited sha256 key_text a id target).at db inv
  call-IsAudited (ask_cancel a run_id) db inv = (cancel_run-IsAudited a run_id).at db inv
  call-IsAudited (prepare materialize run_id) db inv =
      (prepare_repository_handler-IsAudited store materialize run_id).at db inv
  call-IsAudited (classify run_id) db inv = (classify_change_handler-IsAudited run_id).at db inv
  call-IsAudited (deliver receiver attempt id) db inv =
      (deliver_webhook_handler-IsAudited receiver attempt id).at db inv
  call-IsAudited (replay id) db inv = (replay_webhook_delivery-IsAudited id).at db inv
  call-IsAudited (route_run run_id) db inv =
      (apply_routing_policy_handler-IsAudited run_id).at db inv
  call-IsAudited (pull_request params) db inv =
      (process_pull_request_event-IsAudited sha256 key_text params).at db inv
  call-IsAudited (receipt_job json_text page run_id) db inv =
      (generate_receipt_handler-IsAudited store json_text page run_id).at db inv
  call-IsAudited (ask_receipt json_text page read a run_id format) db inv =
      (get_receipt-IsAudited store json_text page read a run_id format).at db inv
  call-IsAudited (key_login hash_api_key raw_key) db inv =
      (authenticate_agent_by_api_key-IsAudited hash_api_key raw_key).at db inv
  call-IsAudited (open_session token user_id) db inv =
      (create_session-IsAudited sha256 token user_id).at db inv
  call-IsAudited (close_session token) db inv = (revoke_session-IsAudited sha256 token).at db inv
  call-IsAudited (new_organization row) db inv =
      elsewhere db (record db { organizations = row ∷ db.organizations }) refl refl refl inv
  call-IsAudited (new_user row) db inv =
      elsewhere db (record db { users = row ∷ db.users }) refl refl refl inv
  call-IsAudited (new_credential row) db inv =
      elsewhere db (record db { api_key_credentials = row ∷ db.api_key_credentials }) refl refl refl
        inv
  call-IsAudited (new_agent row) db inv =
      elsewhere db (record db { agent_identities = row ∷ db.agent_identities }) refl refl refl inv
  call-IsAudited (new_repository row) db inv =
      elsewhere db (record db { repositories = row ∷ db.repositories }) refl refl refl inv
  call-IsAudited (new_policy_config row) db inv =
      elsewhere db (record db { repository_policy_configs = row ∷ db.repository_policy_configs })
        refl refl refl inv
  call-IsAudited (new_target row) db inv =
      elsewhere db (record db { target_environments = row ∷ db.target_environments }) refl refl refl
        inv
  call-IsAudited (new_endpoint row) db inv =
      elsewhere db (record db { webhook_endpoints = row ∷ db.webhook_endpoints }) refl refl refl inv
  call-IsAudited (snapshot new) db inv = (create_artifact-IsAudited new).at db inv
  call-IsAudited (wait time) db inv =
      IsAudited-same db (record db { now = time }) refl (λ _. refl) (omega arith) inv

  serve-IsAudited :
      (services : List Service) (db : Db)
      → IsAudited db
      → IsAudited (serve store sha256 key_text services db)
  unfolding serve
  serve-IsAudited [] db inv = inv
  serve-IsAudited (s ∷ rest) db inv = serve-IsAudited rest _ (call-IsAudited s db inv)

  -- Whatever services are called, in whatever order and with whatever failures, the events about a
  -- finding form one legal path of the state machine: the first records its creation as
  -- `suspected`, each later one records a move of the transition table from the state that the
  -- one before it left, and the last leaves the finding's present status.
  pub trail_of_every_finding :
      (services : List Service) (id : ℕ) (f : Finding)
      → find_finding id (serve store sha256 key_text services empty_db) ≡ some f
      → FindingTrail
          (events_about id (serve store sha256 key_text services empty_db).audit_events)
          f.status
  trail_of_every_finding services id f found =
      (serve-IsAudited services empty_db empty_db-IsAudited).trails id f found

  -- If the finding stands at `verified_fixed`, the newest four events about it are, from old to
  -- new: a fix became due, a fix commit was submitted, the retest began, and the fix was verified.
  pub verified_only_after_retest :
      (services : List Service) (id : ℕ) (f : Finding)
      → find_finding id (serve store sha256 key_text services empty_db) ≡ some f
      → f.status ≡ verified_fixed
      → (older : List (Option AuditState)) × (new_states
            (events_about id (serve store sha256 key_text services empty_db).audit_events)
          ≡ some (of_finding verified_fixed)
            ∷ some (of_finding retesting)
            ∷ some (of_finding fix_submitted)
            ∷ some (of_finding fix_pending)
            ∷ older)
  verified_only_after_retest services id f found verified =
      verified_trail (rw verified at (trail_of_every_finding services id f found))
