-- ===== src/Github/Audited.antt =====
-- A delivery of GitHub keeps the promise of the audit log: src/github/process-pull-request-event.ts.
use shld.Prelude.{ℕ, String, Option, none, some, List}
use shld.Accounts.Audited.{get_or_create_github_agent_identity-IsAudited}
use shld.Action.Keeps.{Keeps}
use shld.Domain.Trail.{IsAudited}
use shld.Domain.Trail.Rules.{audit_rules, elsewhere-IsAudited}
use shld.Github.PullRequests.{
  ProcessPullRequestEventParams, PullRequestWebhookPayload, SkipReason, record_delivery, skip,
  review_connected, on_payload, process_pull_request_event,
}
use shld.Services.Audited.{create_security_review-IsAudited}
use shld.Store.Rows.{Repository}

record_delivery-IsAudited :
    (params : ProcessPullRequestEventParams) → Keeps IsAudited (record_delivery params)
unfolding record_delivery
record_delivery-IsAudited params = search (audit_rules, elsewhere-IsAudited) depth 12

skip-IsAudited :
    (params : ProcessPullRequestEventParams) (reason : SkipReason)
    → Keeps IsAudited (skip params reason)
unfolding skip
skip-IsAudited params reason = search (audit_rules, record_delivery-IsAudited) depth 8

module _ (sha256 : List ℕ → String) (key_text : ℕ → String) where
  review_connected-IsAudited :
      (params : ProcessPullRequestEventParams) (payload : PullRequestWebhookPayload)
      (repository : Option Repository)
      → Keeps IsAudited (review_connected sha256 key_text params payload repository)
  unfolding review_connected
  review_connected-IsAudited params payload none = search (audit_rules, skip-IsAudited)
  review_connected-IsAudited params payload (some repository) =
      search
        (
          audit_rules, get_or_create_github_agent_identity-IsAudited,
          create_security_review-IsAudited, record_delivery-IsAudited,
        )
        depth 12

  on_payload-IsAudited :
      (params : ProcessPullRequestEventParams) (payload : Option PullRequestWebhookPayload)
      → Keeps IsAudited (on_payload sha256 key_text params payload)
  unfolding on_payload
  on_payload-IsAudited params none = search (audit_rules, skip-IsAudited)
  on_payload-IsAudited params (some payload) =
      search (audit_rules, skip-IsAudited, review_connected-IsAudited) depth 12

  pub process_pull_request_event-IsAudited :
      (params : ProcessPullRequestEventParams)
      → Keeps IsAudited (process_pull_request_event sha256 key_text params)
  unfolding process_pull_request_event
  process_pull_request_event-IsAudited params = search (audit_rules, on_payload-IsAudited) depth 12
