-- ===== src/Audited/Service.antt =====
-- Any sequence of calls of the services that change findings or runs, from an empty database. A
-- call that throws leaves what it had written, as the source does.
use shld.Prelude.{ℕ, String, Option, List, [], ◌∷◌}
use shld.Correlation.Correlate.{CorrelateStrixValidationParams, correlate_strix_validation}
use shld.Domain.Transitions.{
  TransitionFindingStatusParams, transition_finding_status, TransitionRunStatusParams,
  transition_run_status,
}
use shld.Action.{Result}
use shld.Services.Requests.{
  AuthenticatedAgent, validate_finding, submit_fix_for_finding, verify_fix_for_finding, cancel_run,
}
use shld.Services.Review.{CreateSecurityReviewParams, create_security_review}
use shld.Orchestration.Route.{apply_routing_policy_handler}
use shld.Orchestration.Deliver.{Response, deliver_webhook_handler, replay_webhook_delivery}
use shld.Orchestration.Prepare.{SourceSnapshot, prepare_repository_handler, classify_change_handler}
use shld.Orchestration.Finalize.{finalize_run}
use shld.Orchestration.SourceReview.{run_deepsec_handler, run_deepsec_revalidation_handler}
use shld.Orchestration.Runtime.{run_strix_validation_handler, run_strix_retest_handler}
use shld.Accounts.Agents.{authenticate_agent_by_api_key}
use shld.Accounts.Sessions.{create_session, revoke_session}
use shld.Github.PullRequests.{ProcessPullRequestEventParams, process_pull_request_event}
use shld.Receipts.Gather.{ReceiptData}
use shld.Receipts.Generate.{ReceiptFormat, generate_receipt_handler, get_receipt}
use shld.Receipts.Render.{ReceiptJson}
use shld.Receipts.Status.{ReceiptStatus}
use shld.Store.Accounts.{AgentIdentity, ApiKeyCredential, Organization, User}
use shld.Store.Rows.{
  SecurityRun, Artifact, Finding, Repository, RepositoryPolicyConfig, TargetEnvironment,
  WebhookDelivery, WebhookEndpoint,
}
use shld.Engines.DeepSec.{
  DeepSecRunResult, StoredArtifact, PersistDeepSecRunParams, persist_deepsec_run,
}
use shld.Engines.Strix.{StrixRunResult, PersistStrixRunParams, persist_strix_run}
use shld.Policy.Apply.{ApplyRoutingPolicyParams, apply_routing_policy}
use shld.Remediation.Submit.{SubmitFixParams, submit_fix}
use shld.Remediation.Start.{StartFixVerificationParams, start_fix_verification}
use shld.Remediation.Complete.{CompleteFixVerificationParams, complete_fix_verification}
use shld.Store.{Db}
use shld.Store.Writes.{NewRun, create_run, NewArtifact, create_artifact}

pub data Service : Type 0 where
  new_run : NewRun → Service
  move_run : TransitionRunStatusParams → Service
  move_finding : TransitionFindingStatusParams → Service
  deepsec : PersistDeepSecRunParams → Service
  strix : PersistStrixRunParams → Service
  correlate : CorrelateStrixValidationParams → Service
  route : ApplyRoutingPolicyParams → Service
  submit : SubmitFixParams → Service
  start : StartFixVerificationParams → Service
  complete : CompleteFixVerificationParams → Service
  -- a job's handler runs, and what its engine answers
  source_review : (SecurityRun → Artifact → Result DeepSecRunResult) → ℕ → Service
  revalidate : (SecurityRun → Artifact → Finding → Result DeepSecRunResult) → ℕ → ℕ → Service
  validate : (SecurityRun → Finding → TargetEnvironment → Result StrixRunResult) → ℕ → ℕ → Service
  retest : (SecurityRun → Finding → TargetEnvironment → Result StrixRunResult) → ℕ → ℕ → Service
  prepare : (SecurityRun → Result SourceSnapshot) → ℕ → Service
  classify : ℕ → Service
  route_run : ℕ → Service
  deliver : (WebhookDelivery → WebhookEndpoint → Option Response) → ℕ → ℕ → Service
  replay : ℕ → Service
  finalize : ℕ → Service
  -- an agent asks
  ask_review : CreateSecurityReviewParams → Service
  ask_validation : AuthenticatedAgent → ℕ → ℕ → Service
  ask_fix : AuthenticatedAgent → ℕ → String → Service
  ask_verification : AuthenticatedAgent → ℕ → Option ℕ → Service
  ask_cancel : AuthenticatedAgent → ℕ → Service
  -- a pull request changes, a receipt is wanted, somebody logs in or out
  pull_request : ProcessPullRequestEventParams → Service
  receipt_job : (ReceiptJson → String) → (ReceiptData → ReceiptStatus → String) → ℕ → Service
  ask_receipt :
      (ReceiptJson → String)
      → (ReceiptData → ReceiptStatus → String)
      → (String → Result String)
      → AuthenticatedAgent
      → ℕ
      → ReceiptFormat
      → Service
  key_login : (List ℕ → String) → List ℕ → Service
  open_session : List ℕ → ℕ → Service
  close_session : List ℕ → Service
  -- a row that no service creates is entered, and a snapshot is taken
  new_agent : AgentIdentity → Service
  new_organization : Organization → Service
  new_user : User → Service
  new_credential : ApiKeyCredential → Service
  new_repository : Repository → Service
  new_policy_config : RepositoryPolicyConfig → Service
  new_target : TargetEnvironment → Service
  new_endpoint : WebhookEndpoint → Service
  snapshot : NewArtifact → Service
  -- the clock goes on
  wait : ℕ → Service

abbrev pub empty_db : Db
empty_db = record {
  findings = [];
  runs = [];
  audit_events = [];
  validations = [];
  remediations = [];
  routing_decisions = [];
  engine_executions = [];
  artifacts = [];
  agent_identities = [];
  repositories = [];
  repository_policy_configs = [];
  run_classifications = [];
  target_environments = [];
  webhook_endpoints = [];
  webhook_deliveries = [];
  api_key_credentials = [];
  users = [];
  sessions = [];
  idempotency_records = [];
  inbound_github_events = [];
  organizations = [];
  receipts = [];
  outbox = [];
  next_id = 0;
  now = 0;
}

module _ (store : String → String → StoredArtifact) (sha256 : List ℕ → String)
    (key_text : ℕ → String) where
  -- the database that a call leaves
  unfoldable pub call : Service → Db → Db
  call (new_run new) db = (create_run new db).1
  call (move_run params) db = (transition_run_status params db).1
  call (move_finding params) db = (transition_finding_status params db).1
  call (deepsec params) db = (persist_deepsec_run store params db).1
  call (strix params) db = (persist_strix_run store params db).1
  call (correlate params) db = (correlate_strix_validation store sha256 key_text params db).1
  call (route params) db = (apply_routing_policy params db).1
  call (submit params) db = (submit_fix params db).1
  call (start params) db = (start_fix_verification params db).1
  call (complete params) db = (complete_fix_verification params db).1
  call (source_review engine run_id) db = (run_deepsec_handler store engine run_id db).1
  call (revalidate engine run_id id) db =
      (run_deepsec_revalidation_handler store engine run_id id db).1
  call (validate engine run_id id) db =
      (run_strix_validation_handler store sha256 key_text engine run_id id db).1
  call (retest engine run_id id) db =
      (run_strix_retest_handler store sha256 key_text engine run_id id db).1
  call (finalize run_id) db = (finalize_run run_id db).1
  call (ask_review params) db = (create_security_review sha256 key_text params db).1
  call (ask_validation a id target) db = (validate_finding sha256 key_text a id target db).1
  call (ask_fix a id sha) db = (submit_fix_for_finding a id sha db).1
  call (ask_verification a id target) db = (verify_fix_for_finding sha256 key_text a id target db).1
  call (ask_cancel a run_id) db = (cancel_run a run_id db).1
  call (prepare materialize run_id) db = (prepare_repository_handler store materialize run_id db).1
  call (classify run_id) db = (classify_change_handler run_id db).1
  call (deliver receiver attempt id) db = (deliver_webhook_handler receiver attempt id db).1
  call (replay id) db = (replay_webhook_delivery id db).1
  call (route_run run_id) db = (apply_routing_policy_handler run_id db).1
  call (pull_request params) db = (process_pull_request_event sha256 key_text params db).1
  call (receipt_job json_text page run_id) db =
      (generate_receipt_handler store json_text page run_id db).1
  call (ask_receipt json_text page read a run_id format) db =
      (get_receipt store json_text page read a run_id format db).1
  call (key_login hash_api_key raw_key) db =
      (authenticate_agent_by_api_key hash_api_key raw_key db).1
  call (open_session token user_id) db = (create_session sha256 token user_id db).1
  call (close_session token) db = (revoke_session sha256 token db).1
  call (new_organization row) db = record db { organizations = row ∷ db.organizations }
  call (new_user row) db = record db { users = row ∷ db.users }
  call (new_credential row) db = record db { api_key_credentials = row ∷ db.api_key_credentials }
  call (new_agent row) db = record db { agent_identities = row ∷ db.agent_identities }
  call (new_repository row) db = record db { repositories = row ∷ db.repositories }
  call (new_policy_config row) db = record db {
    repository_policy_configs = row ∷ db.repository_policy_configs;
  }
  call (new_target row) db = record db { target_environments = row ∷ db.target_environments }
  call (new_endpoint row) db = record db { webhook_endpoints = row ∷ db.webhook_endpoints }
  call (snapshot new) db = (create_artifact new db).1
  call (wait time) db = record db { now = time }

  unfoldable pub serve : List Service → Db → Db
  unfolding call
  serve [] db = db
  serve (s ∷ rest) db = serve rest (call s db)
