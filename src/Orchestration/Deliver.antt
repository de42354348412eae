-- ===== src/Orchestration/Deliver.antt =====
-- src/webhooks/deliver-webhook-handler.ts and src/webhooks/manage-deliveries.ts. The receiver is a
-- parameter: its response to a delivery, or none where the request throws.
use shld.Prelude.{ℕ, ◌+◌, Bool, true, false, Option, none, some, leb, if◌then◌else◌}
use shld.Action.{Action, pure, throw, gets, modify, or_throw, ◌>>=◌, ◌>>◌}
use shld.Domain.Errors.{record_missing, plain_error, not_found}
use shld.Orchestration.Webhooks.{enqueue_job}
use shld.Queue.Jobs.{deliver_webhook}
use shld.Store.{Db}
use shld.Store.Rows.{
  WebhookDelivery, WebhookDeliveryStatus, delivered, exhausted, WebhookEndpoint, of_replay,
  delivery_payload,
}
use shld.Store.Table.{find_by, update_by}

-- the status code of a response, and `response.ok`
pub record Response : Type 0 where
  pub status : ℕ
  pub is_ok : Bool

unfoldable pub find_delivery : ℕ → Db → Option WebhookDelivery
find_delivery id db = find_by (λ d. d.id) id db.webhook_deliveries

unfoldable pub find_endpoint : ℕ → Db → Option WebhookEndpoint
find_endpoint id db = find_by (λ e. e.id) id db.webhook_endpoints

unfoldable pub update_delivery : ℕ → (WebhookDelivery → WebhookDelivery) → Action Db (Unit {0})
update_delivery id change =
    modify
      λ db. record db { webhook_deliveries = update_by (λ d. d.id) id change db.webhook_deliveries }

abbrev pub is_delivered : WebhookDeliveryStatus → Bool
is_delivered delivered = true
is_delivered _ = false

abbrev pub has_succeeded : Option Response → Bool
has_succeeded none = false
has_succeeded (some r) = r.is_ok

abbrev code_of : Option Response → Option ℕ → Option ℕ
code_of none old = old
code_of (some r) old = some r.status

-- The row after an attempt. A missing code leaves the old one, as Prisma skips `undefined`.
abbrev pub attempted : Option Response → ℕ → ℕ → WebhookDelivery → WebhookDelivery
attempted response attempt now d = record d {
  attempts = d.attempts + 1;
  last_attempt_at = some now;
  response_code = code_of response d.response_code;
  status =
      if has_succeeded response
      then delivered
      else if leb 3 attempt
      then exhausted
      else WebhookDeliveryStatus.pending;
}

-- the part behind `status === "delivered"`
unfoldable pub send :
    (WebhookDelivery → WebhookEndpoint → Option Response)
    → ℕ
    → WebhookDelivery
    → Action Db (Unit {0})
send receiver attempt delivery = do
  found ← gets (find_endpoint delivery.webhook_endpoint_id)
  endpoint ← or_throw found record_missing
  now ← gets (λ db. db.now)
  update_delivery delivery.id (attempted (receiver delivery endpoint) attempt now)
  if has_succeeded (receiver delivery endpoint) then pure tt else throw plain_error

unfoldable pub deliver_webhook_handler :
    (WebhookDelivery → WebhookEndpoint → Option Response) → ℕ → ℕ → Action Db (Unit {0})
deliver_webhook_handler receiver attempt id = do
  found ← gets (find_delivery id)
  delivery ← or_throw found record_missing
  if is_delivered delivery.status then pure tt else send receiver attempt delivery

abbrev reset : WebhookDelivery → WebhookDelivery
reset d = record d { status = WebhookDeliveryStatus.pending }

unfoldable pub replay_webhook_delivery : ℕ → Action Db (Unit {0})
replay_webhook_delivery id = do
  found ← gets (find_delivery id)
  delivery ← or_throw found not_found
  found_endpoint ← gets (find_endpoint delivery.webhook_endpoint_id)
  endpoint ← or_throw found_endpoint record_missing
  update_delivery id reset
  now ← gets (λ db. db.now)
  enqueue_job (record {
    job_type = deliver_webhook;
    organization_id = endpoint.organization_id;
    idempotency_key = of_replay delivery.id now;
    payload = delivery_payload delivery.id;
  })
