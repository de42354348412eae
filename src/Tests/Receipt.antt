-- ===== src/Tests/Receipt.antt =====
-- The receipt of a run with one finding, and the delivery of its webhook.
use shld.Prelude.{none, some, true, false, Option, [], ◌∷◌}
use shld.Audited.Service.{empty_db}
use shld.Domain.RunStatus.{completed}
use shld.Orchestration.Deliver.{Response}
use shld.Store.{Db}
use shld.Store.Rows.{WebhookDelivery, WebhookEndpoint, run_completed, WebhookDeliveryStatus}

abbrev endpoint : WebhookEndpoint
endpoint = record { id = 50; organization_id = 10; active = true; event_types = run_completed ∷ [] }

abbrev delivery : WebhookDelivery
delivery = record {
  id = 60;
  webhook_endpoint_id = 50;
  idempotency_key = record { run_id = 0; status = completed; event_type = run_completed };
  status = WebhookDeliveryStatus.pending;
  attempts = 2;
  last_attempt_at = none;
  response_code = none;
}

abbrev two_attempts_made : Db
two_attempts_made = record empty_db {
  webhook_endpoints = endpoint ∷ [];
  webhook_deliveries = delivery ∷ [];
}

abbrev is_down : WebhookDelivery → WebhookEndpoint → Option Response
is_down d e = some (record { status = 503; is_ok = false })
