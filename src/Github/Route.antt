-- ===== src/Github/Route.antt =====
-- src/api/routes/github-webhook-route.ts. A header is missing where it is no single text.
use shld.Prelude.{ℕ, Option, some, List, String, str_eq, if◌then◌else◌}
use shld.Action.{Action, pure, ◌>>=◌}
use shld.Github.PullRequests.{
  PullRequestWebhookPayload, ProcessPullRequestEventResult, skipped, unhandled_event,
  process_pull_request_event,
}
use shld.Github.Signature.{verify_github_webhook_signature}
use shld.Store.{Db}

pub record WebhookRequest : Type 0 where
  pub raw_body : Option (List ℕ)
  pub signature : Option (List ℕ)
  pub delivery_id : Option String
  pub event_type : Option String
  pub body : Option PullRequestWebhookPayload

pub data WebhookReply : Type 0 where
  missing_headers invalid_signature : WebhookReply
  accepted : ProcessPullRequestEventResult → WebhookReply

abbrev pub status_code : WebhookReply → ℕ
status_code missing_headers = 400
status_code invalid_signature = 401
status_code (accepted result) = 202

module _ (hmac : List ℕ → List ℕ → List ℕ) (sha256 : List ℕ → String) (key_text : ℕ → String)
    (webhook_secret : List ℕ) where
  unfoldable pub on_signed :
      String → String → Option PullRequestWebhookPayload → Action Db WebhookReply
  unfolding ◌>>=◌ process_pull_request_event
  on_signed delivery_id event_type body =
      if str_eq event_type "pull_request"
      then (do
        result ←
            process_pull_request_event sha256 key_text
              (record { delivery_id = delivery_id; event_type = event_type; payload = body })
        pure (accepted result))
      else pure (accepted (skipped unhandled_event))

  unfoldable pub on_headers :
      Option (List ℕ)
      → Option (List ℕ)
      → Option String
      → Option String
      → Option PullRequestWebhookPayload
      → Action Db WebhookReply
  unfolding on_signed verify_github_webhook_signature
  on_headers (some raw_body) (some signature) (some delivery_id) (some event_type) body =
      if verify_github_webhook_signature hmac raw_body (some signature) webhook_secret
      then on_signed delivery_id event_type body
      else pure invalid_signature
  on_headers _ _ _ _ body = pure missing_headers

  unfoldable pub github_webhook_route : WebhookRequest → Action Db WebhookReply
  unfolding on_headers
  github_webhook_route request =
      on_headers request.raw_body request.signature request.delivery_id request.event_type
        request.body
