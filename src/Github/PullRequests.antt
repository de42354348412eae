-- ===== src/Github/PullRequests.antt =====
-- src/github/process-pull-request-event.ts and webhook-event.ts. A payload is what the zod schema
-- makes of it, or nothing where it does not fit.
use shld.Prelude.{
  ℕ, ◌&&◌, Option, none, some, List, [], ◌∷◌, String, str_eq, any, find, is_some, if◌then◌else◌,
}
use shld.Accounts.Agents.{get_or_create_github_agent_identity}
use shld.Action.{Action, ok, err, pure, lift, gets, modify, ◌>>=◌, ◌>>◌}
use shld.Domain.Errors.{unique_violation}
use shld.Domain.RunStatus.{RunStatus}
use shld.Services.Review.{create_security_review}
use shld.Store.{Db}
use shld.Store.Accounts.{InboundGithubEvent}
use shld.Store.Rows.{Repository}

pub record PullRequestWebhookPayload : Type 0 where
  pub action : String
  pub number : ℕ
  pub head_sha : String
  pub base_sha : String
  pub repository_name : String
  pub owner_login : String

abbrev pub tracked_pull_request_actions : List String
tracked_pull_request_actions = "opened" ∷ "synchronize" ∷ "reopened" ∷ []

pub record ProcessPullRequestEventParams : Type 0 where
  pub delivery_id : String
  pub event_type : String
  pub payload : Option PullRequestWebhookPayload

pub data SkipReason : Type 0 where
  duplicate_delivery unrecognized_payload untracked_action unknown_repository unhandled_event :
      SkipReason

pub data ProcessPullRequestEventResult : Type 0 where
  created : ℕ → RunStatus → ProcessPullRequestEventResult
  skipped : SkipReason → ProcessPullRequestEventResult

-- `inboundGithubEvent.findUnique({ where: { deliveryId } })`
unfoldable pub find_event : String → Db → Option InboundGithubEvent
find_event delivery_id db = find (λ e. str_eq e.delivery_id delivery_id) db.inbound_github_events

abbrev pub event_of : ProcessPullRequestEventParams → InboundGithubEvent
event_of params = record { delivery_id = params.delivery_id; event_type = params.event_type }

-- a delivery's id is unique
unfoldable pub record_delivery : ProcessPullRequestEventParams → Action Db (Unit {0})
unfolding ◌>>=◌
record_delivery params = do
  taken ← gets (find_event params.delivery_id)
  lift (if is_some taken then err unique_violation else ok tt)
  modify λ db. record db { inbound_github_events = event_of params ∷ db.inbound_github_events }

-- the one provider is GitHub; which of several such rows is not specified
unfoldable pub find_connected : PullRequestWebhookPayload → Db → Option Repository
find_connected payload db =
    find (λ r. str_eq r.owner payload.owner_login && str_eq r.name payload.repository_name)
      db.repositories

unfoldable pub skip :
    ProcessPullRequestEventParams → SkipReason → Action Db ProcessPullRequestEventResult
unfolding ◌>>=◌ record_delivery
skip params reason = record_delivery params >> pure (skipped reason)

module _ (sha256 : List ℕ → String) (key_text : ℕ → String) where
  unfoldable pub review_connected :
      ProcessPullRequestEventParams
      → PullRequestWebhookPayload
      → Option Repository
      → Action Db ProcessPullRequestEventResult
  unfolding ◌>>=◌ skip
  review_connected params payload none = skip params unknown_repository
  review_connected params payload (some repository) = do
    github_agent ← get_or_create_github_agent_identity repository.organization_id
    result ← create_security_review sha256 key_text (record {
      agent = github_agent;
      repository_id = repository.id;
      base_sha = payload.base_sha;
      head_sha = payload.head_sha;
      pull_request_number = some payload.number;
      target_environment_id = none;
      run_type = none;
    })
    record_delivery params
    pure (created result.run_id result.status)

  unfoldable pub on_payload :
      ProcessPullRequestEventParams
      → Option PullRequestWebhookPayload
      → Action Db ProcessPullRequestEventResult
  unfolding ◌>>=◌ review_connected
  on_payload params none = skip params unrecognized_payload
  on_payload params (some payload) =
      if any (str_eq payload.action) tracked_pull_request_actions
      then (do
        repository ← gets (find_connected payload)
        review_connected params payload repository)
      else skip params untracked_action

  unfoldable pub process_pull_request_event :
      ProcessPullRequestEventParams → Action Db ProcessPullRequestEventResult
  unfolding ◌>>=◌ on_payload
  process_pull_request_event params = do
    existing ← gets (find_event params.delivery_id)
    if is_some existing then pure (skipped duplicate_delivery) else on_payload params params.payload
