-- ===== src/Orchestration/Webhooks.antt =====
-- src/webhooks/enqueue-delivery.ts, and the hand-over of a job to the queue.
use shld.Prelude.{ℕ, Bool, ◌&&◌, Option, none, some, List, ◌∷◌, any, keep, ◌==◌, find}
use shld.Action.{Action, pure, gets, modify, ◌>>=◌, ◌>>◌, collect}
use shld.Domain.RunStatus
use shld.Queue.Jobs.{deliver_webhook}
use shld.Store.{Db}
use shld.Store.Rows.{
  OutboundWebhookEventType, run_started, run_completed, run_failed, finding_created,
  finding_confirmed, finding_fix_required, finding_verified_fixed, review_blocked, WebhookEndpoint,
  DeliveryKey, WebhookDelivery, WebhookDeliveryStatus, JobRequest, of_delivery, delivery_payload,
}
use shld.Store.Writes.{fresh_id}

-- `jobQueue.enqueue`
unfoldable pub enqueue_job : JobRequest → Action Db (Unit {0})
enqueue_job job = modify λ db. record db { outbox = job ∷ db.outbox }

event_code : OutboundWebhookEventType → ℕ
event_code run_started = 0
event_code run_completed = 1
event_code run_failed = 2
event_code finding_created = 3
event_code finding_confirmed = 4
event_code finding_fix_required = 5
event_code finding_verified_fixed = 6
event_code review_blocked = 7

-- `a === b` of two event types
unfoldable pub same_event : OutboundWebhookEventType → OutboundWebhookEventType → Bool
unfolding event_code
same_event a b = event_code a == event_code b

abbrev pub same_key : DeliveryKey → DeliveryKey → Bool
same_key a b =
    a.run_id == b.run_id
    && shld.Domain.RunStatus.same a.status b.status
    && same_event a.event_type b.event_type

pub record EnqueueWebhookDeliveryParams : Type 0 where
  pub organization_id : ℕ
  pub event_type : OutboundWebhookEventType
  pub idempotency_key : DeliveryKey

-- the `where` of `webhookEndpoint.findMany`
abbrev pub is_subscribed : EnqueueWebhookDeliveryParams → WebhookEndpoint → Bool
is_subscribed params e =
    e.organization_id == params.organization_id
    && e.active
    && any (λ t. same_event t params.event_type) e.event_types

abbrev pub is_delivery : ℕ → DeliveryKey → WebhookDelivery → Bool
is_delivery endpoint_id key d =
    d.webhook_endpoint_id == endpoint_id && same_key d.idempotency_key key

-- `webhookDelivery.upsert`, on the row that it found, or on none
unfoldable pub upsert_delivery : ℕ → DeliveryKey → Option WebhookDelivery → Action Db ℕ
upsert_delivery endpoint_id key none = do
  id ← fresh_id
  modify (λ db. record db {
    webhook_deliveries =
        (record {
          id = id;
          webhook_endpoint_id = endpoint_id;
          idempotency_key = key;
          status = WebhookDeliveryStatus.pending;
          attempts = 0;
          last_attempt_at = none;
          response_code = none;
        })
        ∷ db.webhook_deliveries;
  })
  pure id
upsert_delivery endpoint_id key (some row) = pure row.id

-- the body of the loop over the endpoints
unfoldable pub deliver_to : EnqueueWebhookDeliveryParams → WebhookEndpoint → Action Db ℕ
deliver_to params endpoint = do
  existing ←
      gets (λ db. find (is_delivery endpoint.id params.idempotency_key) db.webhook_deliveries)
  id ← upsert_delivery endpoint.id params.idempotency_key existing
  enqueue_job (record {
    job_type = deliver_webhook;
    organization_id = params.organization_id;
    idempotency_key = of_delivery id;
    payload = delivery_payload id;
  })
  pure id

unfoldable pub enqueue_webhook_delivery : EnqueueWebhookDeliveryParams → Action Db (List ℕ)
enqueue_webhook_delivery params = do
  endpoints ← gets (λ db. keep (is_subscribed params) db.webhook_endpoints)
  collect endpoints (deliver_to params)
