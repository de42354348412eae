-- ===== src/Store/Rows/Deliveries.antt =====
-- The rows of prisma/schema.prisma about outgoing webhooks, and the jobs that are handed over.
use shld.Prelude.{ℕ, String, Bool, Option, List}
use shld.Domain.RunStatus.{RunStatus}
use shld.Queue.Jobs.{JobType}

pub data OutboundWebhookEventType : Type 0 where
  run_started run_completed run_failed finding_created finding_confirmed finding_fix_required
        finding_verified_fixed review_blocked :
      OutboundWebhookEventType

pub record WebhookEndpoint : Type 0 where
  pub id : ℕ
  pub organization_id : ℕ
  pub active : Bool
  pub event_types : List OutboundWebhookEventType

-- `${runId}:${nextStatus}:${eventType}`
pub record DeliveryKey : Type 0 where
  pub run_id : ℕ
  pub status : RunStatus
  pub event_type : OutboundWebhookEventType

pub data WebhookDeliveryStatus : Type 0 where
  pending delivered failed exhausted : WebhookDeliveryStatus

pub record WebhookDelivery : Type 0 where
  pub id : ℕ
  pub webhook_endpoint_id : ℕ
  pub idempotency_key : DeliveryKey
  pub status : WebhookDeliveryStatus
  pub attempts : ℕ
  pub last_attempt_at : Option ℕ
  pub response_code : Option ℕ

-- The text of a job's idempotency key: `${run.idempotencyKey}:${suffix}`, the same with the id of a
-- finding behind it, `deliver:${delivery.id}`, or the same with `:replay:` and the time behind it.
pub data JobKey : Type 0 where
  of_run_job : String → String → JobKey
  of_finding_job : String → String → ℕ → JobKey
  of_delivery : ℕ → JobKey
  of_replay : ℕ → ℕ → JobKey

pub data JobPayload : Type 0 where
  run_payload : ℕ → JobPayload
  finding_payload : ℕ → ℕ → JobPayload
  delivery_payload : ℕ → JobPayload

-- what `jobQueue.enqueue` is given
pub record JobRequest : Type 0 where
  pub job_type : JobType
  pub organization_id : ℕ
  pub idempotency_key : JobKey
  pub payload : JobPayload
