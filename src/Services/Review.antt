-- ===== src/Services/Review.antt =====
-- src/api/services/create-security-review.ts. Parameters: the hash of node:crypto and the text of a
-- key.
use shld.Prelude.{
  ℕ, String, Bool, true, false, not, ◌&&◌, ◌||◌, Option, none, some, List, all, keep, length, leb,
  ◌==◌, get_or, find, str_eq, if◌then◌else◌,
}
use shld.Prelude.Text.{codes}
use shld.Access.Permissions.{assert_operation_allowed}
use shld.Access.Authorize.{authorize_repository_for_run}
use shld.Action.{Action, Result, ok, err, pure, lift, gets, ◌>>=◌, ◌>>◌}
use shld.Domain.Errors.{plain_error, budget_exceeded}
use shld.Domain.RunStatus
use shld.Domain.RunStatus.{RunStatus, queued}
use shld.Domain.StateMachine.{includes}
use shld.Domain.Transitions.{terminal_statuses}
use shld.Orchestration.Webhooks.{enqueue_job}
use shld.Queue.Jobs.{prepare_repository}
use shld.Services.Requests.{
  AuthenticatedAgent, check_given_target, compute_run_idempotency_key, run_type_name,
}
use shld.Store.{Db}
use shld.Store.Rows.{
  RepositoryPolicyConfig, RunType, change_review, SecurityRun, of_run_job, run_payload,
}
use shld.Store.Table.{find_by}
use shld.Store.Writes.{create_run}

abbrev is_hex_digit : ℕ → Bool
is_hex_digit c = (leb 48 c && leb c 57) || (leb 65 c && leb c 70) || (leb 97 c && leb c 102)

-- `SHA_PATTERN.test(sha)`, `/^[0-9a-f]{7,40}$/i`
unfoldable pub is_sha : String → Bool
is_sha sha =
    all is_hex_digit (codes sha) && leb 7 (length (codes sha)) && leb (length (codes sha)) 40

pub record CreateSecurityReviewParams : Type 0 where
  pub agent : AuthenticatedAgent
  pub repository_id : ℕ
  pub base_sha : String
  pub head_sha : String
  pub pull_request_number : Option ℕ
  pub target_environment_id : Option ℕ
  pub run_type : Option RunType

pub record CreateSecurityReviewResult : Type 0 where
  pub run_id : ℕ
  pub status : RunStatus
  pub deduplicated : Bool

-- the runs that `securityRun.count` counts
abbrev pub is_active_run : ℕ → SecurityRun → Bool
is_active_run agent_id r =
    r.requested_by_agent_id == agent_id
    && not (includes RunStatus.machine r.status terminal_statuses)

unfoldable pub active_run_count : ℕ → Db → ℕ
active_run_count agent_id db = length (keep (is_active_run agent_id) db.runs)

-- `policyConfig?.policyVersion ?? "2026-01-01"`
abbrev version_of : Option RepositoryPolicyConfig → String
version_of none = "2026-01-01"
version_of (some c) = c.policy_version

abbrev pub refuse_if : Bool → shld.Domain.Errors.DomainError → Result (Unit {0})
refuse_if test e = if test then err e else ok tt

unfoldable pub find_by_key : String → Db → Option SecurityRun
find_by_key key db = find (λ r. str_eq r.idempotency_key key) db.runs

-- the part behind the look-up by the idempotency key
unfoldable pub create_or_reuse :
    CreateSecurityReviewParams
    → RunType
    → ℕ
    → String
    → String
    → Option SecurityRun
    → Action Db CreateSecurityReviewResult
create_or_reuse params run_type repository_id version key (some existing) =
    pure (record { run_id = existing.id; status = existing.status; deduplicated = true })
create_or_reuse params run_type repository_id version key none = do
  run_id ← create_run (record {
    organization_id = params.agent.organization_id;
    repository_id = repository_id;
    requested_by_agent_id = params.agent.agent_identity_id;
    run_type = run_type;
    base_sha = params.base_sha;
    head_sha = params.head_sha;
    pull_request_number = params.pull_request_number;
    target_environment_id = params.target_environment_id;
    policy_version = version;
    idempotency_key = key;
  })
  enqueue_job (record {
    job_type = prepare_repository;
    organization_id = params.agent.organization_id;
    idempotency_key = of_run_job key "prepare";
    payload = run_payload run_id;
  })
  pure (record { run_id = run_id; status = queued; deduplicated = false })

module _ (sha256 : List ℕ → String) (key_text : ℕ → String) where
  unfoldable pub create_security_review :
      CreateSecurityReviewParams → Action Db CreateSecurityReviewResult
  create_security_review params = do
    lift (refuse_if (not (is_sha params.base_sha) || not (is_sha params.head_sha)) plain_error)
    let run_type = get_or params.run_type change_review
    lift (assert_operation_allowed params.agent.permissions (run_type_name run_type))
    repository ← authorize_repository_for_run (record {
      organization_id = params.agent.organization_id;
      repository_id = params.repository_id;
      permissions = params.agent.permissions;
    })
    check_given_target params.agent params.repository_id params.target_environment_id
    active ← gets (active_run_count params.agent.agent_identity_id)
    lift (refuse_if (leb params.agent.permissions.max_concurrent_runs active) budget_exceeded)
    config ← gets (λ db. find_by (λ c. c.repository_id) repository.id db.repository_policy_configs)
    let key = compute_run_idempotency_key sha256 key_text (record {
      organization_id = params.agent.organization_id;
      repository_id = repository.id;
      base_sha = params.base_sha;
      head_sha = params.head_sha;
      run_type = run_type;
      policy_version = version_of config;
    })
    existing ← gets (find_by_key key)
    create_or_reuse params run_type repository.id (version_of config) key existing
