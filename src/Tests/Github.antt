-- ===== src/Tests/Github.antt =====
-- Deliveries of GitHub, signed and unsigned, and the signature of a webhook.
use shld.Prelude.{ℕ, ◌≡◌, ◌≢◌, refl, some, List, [], ◌∷◌, ◌++◌, arith}
use shld.Prelude.Text.{codes}
use shld.Action.{ok}
use shld.Audited.Service.{empty_db}
use shld.Github.PullRequests.{
  PullRequestWebhookPayload, ProcessPullRequestEventParams, skipped, duplicate_delivery,
  unknown_repository, event_of, find_event, find_connected, process_pull_request_event,
}
use shld.Github.Route.{WebhookRequest}
use shld.Github.RouteLaws.{
  process_pull_request_event-again, IsRejected, github_webhook_route-rejects,
}
use shld.Github.Signature.{scheme}
use shld.Store.{Db}
use shld.Tests.Scenario.{hashed, key_text}

-- a stand-in for the keyed hash
abbrev keyed : List ℕ → List ℕ → List ℕ
keyed secret body = secret ++ body

abbrev opened : PullRequestWebhookPayload
opened = record {
  action = "opened";
  number = 4;
  head_sha = "bbbbbbb";
  base_sha = "aaaaaaa";
  repository_name = "app";
  owner_login = "acme";
}

abbrev delivery : ProcessPullRequestEventParams
delivery = record { delivery_id = "d1"; event_type = "pull_request"; payload = some opened }

abbrev with_delivery : Db
with_delivery = record empty_db { inbound_github_events = event_of delivery ∷ [] }

first_time :
    process_pull_request_event hashed key_text delivery empty_db
    ≡ (ok (skipped unknown_repository), with_delivery)
unfolding process_pull_request_event find_event find_connected
first_time = refl

process_pull_request_event-again_example :
    process_pull_request_event hashed key_text delivery with_delivery
    ≡ (ok (skipped duplicate_delivery), with_delivery)
process_pull_request_event-again_example =
    process_pull_request_event-again hashed key_text delivery (skipped unknown_repository) empty_db
      with_delivery first_time

abbrev forged : WebhookRequest
forged = record {
  raw_body = some (codes "x");
  signature = some (codes "sha256=00");
  delivery_id = some "d1";
  event_type = some "pull_request";
  body = some opened;
}

not_signed : forged.signature ≢ some (scheme ++ keyed (codes "s") (codes "x"))
not_signed h = ground arith

github_webhook_route-rejects_example : IsRejected keyed hashed key_text (codes "s") forged empty_db
github_webhook_route-rejects_example =
    github_webhook_route-rejects keyed hashed key_text (codes "s") forged (codes "x") empty_db refl
      not_signed
